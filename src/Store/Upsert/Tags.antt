-- ===== src/Store/Upsert/Tags.antt =====
-- What the loop over the tags writes.
use ragrep.Common.{
  subst, All-map, ℕ, ◌≡◌, refl, sym, ap, ◌∙◌, ◌↔◌, ◌⊎◌, inl, inr, Text, text_eq_iff, Bool, true,
  false, List, [], ◌∷◌, ◌++◌, map, All, In, IsNodup, ok, ◌>>=◌, >>=-eq-ok, append-nil, append_assoc,
  arith,
}
use ragrep.Store.Db.{TagRow, Db}
use ragrep.Store.Frontmatter.{contains}
use ragrep.Store.Upsert.{Env, exec, put_tag, insert_tags}
use ragrep.Store.Upsert.Rows.{exec-ok, ok_inj}

pub contains_iff : (t : Text) (ss : List Text) → (contains t ss ≡ true) ↔ In t ss
unfolding contains
contains_iff t [] = (λ h. cc, λ h. absurd h)
contains_iff t (s ∷ ss) = ground (arith, contains_iff t ss, text_eq_iff s t)

abbrev pub tag_row : ℕ → Text → TagRow
tag_row doc tag = record { doc_id = doc; tag = tag }

-- `ts` are the tags of `tags` that are not in `seen`, each once.
pub record IsDistinct (seen tags ts : List Text) : Type 0 where
  pub nodup : IsNodup ts
  pub new : All (λ t. ¬ (In t seen)) ts
  pub every : (t : Text) → In t tags → In t seen ⊎ In t ts
  pub only : (t : Text) → In t ts → In t tags

IsDistinct-old :
    (seen tags ts : List Text) (t : Text)
    → In t seen
    → IsDistinct seen tags ts
    → IsDistinct seen (t ∷ tags) ts
IsDistinct-old seen tags ts t old d = record {
  nodup = d.nodup;
  new = d.new;
  every = λ s. elim [ inl e ↦ inl (subst (λ x. In x seen) e old) | inr i ↦ d.every s i ];
  only = λ s i. inr (d.only s i);
}

IsDistinct-new :
    (seen tags ts : List Text) (t : Text)
    → ¬ (In t seen)
    → IsDistinct (t ∷ seen) tags ts
    → IsDistinct seen (t ∷ tags) (t ∷ ts)
IsDistinct-new seen tags ts t new d = record {
  nodup = (All-map _ _ (λ s out e. out (inl (sym e))) ts d.new, d.nodup);
  new = (new, All-map _ _ (λ s out i. out (inr i)) ts d.new);
  every = λ s. elim [
    | inl e ↦ inr (inl e)
    | inr i ↦ elim (d.every s i) [
      | inl (inl e) ↦ inr (inl e)
      | inl (inr j) ↦ inl j
      | inr j ↦ inr (inr j)
    ]
  ];
  only = λ s. elim [ inl e ↦ inl e | inr i ↦ inr (d.only s i) ];
}

abbrev pub put_tags : {Blob : Type 0} → ℕ → List Text → Db Blob → Db Blob
put_tags doc ts db = record db { doc_tags = db.doc_tags ++ map (tag_row doc) ts }

module _ {E Vector Blob : Type 0} (env : Env E Vector Blob) where
  abbrev pub Written : ℕ → List Text → List Text → Db Blob → Db Blob → Type 0
  Written doc seen tags db t = (ts : List Text) × IsDistinct seen tags ts × (t ≡ put_tags doc ts db)

  pub insert_tags-ok :
      (doc : ℕ) (seen tags : List Text) (db : Db Blob) {t : Db Blob}
      → insert_tags env doc seen tags db ≡ ok t
      → Written doc seen tags db t
  unfolding insert_tags
  insert_tags-ok doc seen [] db h = (
    [],
    record { nodup = tt; new = tt; every = λ t i. inr i; only = λ t i. i },
    sym (ok_inj h)
        ∙ ap {A = List TagRow} {B = Db Blob} (λ l. record db { doc_tags = l })
            (sym (append-nil db.doc_tags)),
  )
  insert_tags-ok doc seen (tag ∷ tags) db {t} h =
      go (contains tag seen) refl h (insert_tags-ok doc seen tags db)
        (λ u. insert_tags-ok doc (tag ∷ seen) tags u)
    where
      go :
          (b : Bool)
          → contains tag seen ≡ b
          → elim b [
            | true ↦ insert_tags env doc seen tags db
            | false ↦ exec env (put_tag doc tag) db >>= insert_tags env doc (tag ∷ seen) tags
          ]
            ≡ ok t
          → (insert_tags env doc seen tags db ≡ ok t → Written doc seen tags db t)
          → ((u : Db Blob)
              → insert_tags env doc (tag ∷ seen) tags u ≡ ok t
              → Written doc (tag ∷ seen) tags u t)
          → Written doc seen (tag ∷ tags) db t
      go true e g old new =
          let rest = old g in
          (rest.0, IsDistinct-old seen tags rest.0 tag ((contains_iff tag seen).0 e) rest.1, rest.2)
      go false e g old new =
          let chain =
            >>=-eq-ok (exec env (put_tag doc tag) db) (insert_tags env doc (tag ∷ seen) tags) g in
          let one = exec-ok env (ok db) (put_tag doc tag) chain.1 in
          let rest = new chain.0 chain.2 in
          let wrote = one.2 ∙ ap (put_tag doc tag) (ok_inj (sym one.1)) in
          (
            tag ∷ rest.0,
            IsDistinct-new seen tags rest.0 tag (λ i. cc (e, (contains_iff tag seen).1 i)) rest.1,
            rest.2
                ∙ (ap (put_tags doc rest.0) wrote
                    ∙ ap {A = List TagRow} {B = Db Blob} (λ l. record db { doc_tags = l })
                        (append_assoc db.doc_tags (tag_row doc tag ∷ [])
                          (map (tag_row doc) rest.0))),
          )
