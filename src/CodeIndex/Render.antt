-- ===== src/CodeIndex/Render.antt =====
-- src/internal/codeindex/render.go.
use ragrep.Common.{Text, codes, [], ◌∷◌, ◌++◌, ◌==◌, if◌then◌else◌, is_empty}
use ragrep.CodeIndex.{Symbol}

-- What `writeField` adds to the builder.
unfoldable pub write_field : Text → Text → Text
write_field name value =
    if is_empty value then [] else name ++ (codes ": " ++ (value ++ b'\n' ∷ []))

-- `strings.TrimSuffix(s, "\n")`.
unfoldable pub trim_newline : Text → Text
trim_newline [] = []
trim_newline (c ∷ []) = if c == b'\n' then [] else c ∷ []
trim_newline (c ∷ d ∷ s) = c ∷ trim_newline (d ∷ s)

unfoldable pub render_embedding_text : Symbol → Text
unfolding write_field trim_newline
render_embedding_text s = trim_newline (
    write_field (codes "language") s.language
    ++ (write_field (codes "kind") s.kind
        ++ (write_field (codes "qualified_name") s.qualified_name
            ++ (write_field (codes "container") s.container
                ++ (write_field (codes "signature") s.signature
                    ++ (write_field (codes "documentation") s.documentation
                        ++ write_field (codes "path") s.path))))))
