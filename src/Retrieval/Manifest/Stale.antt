-- ===== src/Retrieval/Manifest/Stale.antt =====
-- manifest.go: the stale check, with its cache and without.
use ragrep.Common.{
  Text, text_eq_iff, Bool, true, false, ◌||◌, ◌≡◌, refl, ◌∙◌, Option, some, List, [], ◌∷◌, ◌++◌,
  map, none, sym, ap, subst, ◌↔◌, Any, append-nil, append_assoc, arith, Option-cases, inl, inr,
}
use ragrep.Retrieval.Manifest.{
  SymbolRef, Manifest, StaleEntry, StaleReport, Cached, unread, hashed, read, lookup, fetch,
  is_stale, check_from, check_stale,
}

or-false : (a : Bool) → a || false ≡ a
or-false true = refl
or-false false = refl

or_assoc : (a b c : Bool) → (a || b) || c ≡ a || (b || c)
or_assoc true b c = refl
or_assoc false b c = refl

module _ {Bytes : Type 0} (read_file : Text → Option Bytes) (file_hash : Bytes → Text) where
  -- The verdict on one entry, from the file alone.
  abbrev verdict : SymbolRef → StaleEntry
  verdict ref = record {
    key = ref.key;
    path = ref.path;
    stale = is_stale (read read_file file_hash ref.path) ref.file_hash;
  }

  abbrev any_stale : List StaleEntry → Bool
  any_stale [] = false
  any_stale (e ∷ es) = e.stale || any_stale es

  -- What stands in the cache is what a read would give.
  abbrev IsFaithful : List (Text × Cached) → Type 0
  IsFaithful cache =
      (path : Text) (c : Cached) → lookup path cache ≡ some c → c ≡ read read_file file_hash path

  fetch-IsFaithful :
      (path : Text) (cache : List (Text × Cached))
      → IsFaithful cache
      → ((fetch read_file file_hash path cache).0 ≡ read read_file file_hash path)
        × IsFaithful (fetch read_file file_hash path cache).1
  unfolding fetch
  fetch-IsFaithful path cache f = elim (Option-cases (lookup path cache)) [
    | inl e ↦
        rw (e, fetch) (refl, λ p c h. unfold lookup in ground (arith, f p c, text_eq_iff path p))
    | inr (c, e) ↦ rw (e, fetch) (f path c e, f)
  ]

  check_from-verdict :
      (cache : List (Text × Cached)) (report : StaleReport) (refs : List SymbolRef)
      → IsFaithful cache
      → check_from read_file file_hash cache report refs ≡ record {
        entries = report.entries ++ map verdict refs;
        stale = report.stale || any_stale (map verdict refs);
      }
  unfolding check_from
  check_from-verdict cache report [] f =
      ground (arith, append-nil report.entries, or-false report.stale)
  check_from-verdict cache report (ref ∷ refs) f =
      let (same, f') = fetch-IsFaithful ref.path cache f in
      let entry = verdict ref in
      let next : StaleReport = record {
        entries = report.entries ++ entry ∷ [];
        stale = report.stale || entry.stale;
      } in
      rw same (
        check_from-verdict (fetch read_file file_hash ref.path cache).1 next refs f'
        ∙ ground (
          arith,
          append_assoc report.entries (entry ∷ []) (map verdict refs),
          or_assoc report.stale entry.stale (any_stale (map verdict refs)),
        ))

  -- What the entry for a reference should say: its key, its path, and that it is not stale exactly
  -- when the file of that path can be read and its content has the hash of the reference.
  abbrev pub IsVerdict : SymbolRef → StaleEntry → Type 0
  IsVerdict ref e =
      (e.key ≡ ref.key)
      × (e.path ≡ ref.path)
      × ((e.stale ≡ false) ↔ (
          (content : Bytes) × (read_file ref.path ≡ some content)
          × (file_hash content ≡ ref.file_hash)))

  -- Entry by entry.
  abbrev pub AllVerdicts : List SymbolRef → List StaleEntry → Type 0
  AllVerdicts [] [] = Unit {0}
  AllVerdicts [] (e ∷ es) = ⊥
  AllVerdicts (ref ∷ refs) [] = ⊥
  AllVerdicts (ref ∷ refs) (e ∷ es) = IsVerdict ref e × AllVerdicts refs es

  verdict-IsVerdict : (ref : SymbolRef) → IsVerdict ref (verdict ref)
  unfolding is_stale
  verdict-IsVerdict ref = (refl, refl, go (read_file ref.path) refl)
    where
      go :
          (o : Option Bytes)
          → read_file ref.path ≡ o
          → (is_stale
                (elim o [ none ↦ unread | some content ↦ hashed (file_hash content) ])
                ref.file_hash
              ≡ false)
            ↔ ((content : Bytes) × (read_file ref.path ≡ some content)
                × (file_hash content ≡ ref.file_hash))
      go none e = (λ h. cc, λ h. cc (e, h.1))
      go (some content) e = (
        λ h. (content, e, ground (arith, text_eq_iff (file_hash content) ref.file_hash, h)),
        λ h.
            let same : content ≡ h.0 = cc (e, h.1) in
            ground (arith, text_eq_iff (file_hash content) ref.file_hash, ap file_hash same, h.2),
      )

  map-AllVerdicts : (refs : List SymbolRef) → AllVerdicts refs (map verdict refs)
  map-AllVerdicts [] = tt
  map-AllVerdicts (ref ∷ refs) = (verdict-IsVerdict ref, map-AllVerdicts refs)

  any_stale_iff : (es : List StaleEntry) → (any_stale es ≡ true) ↔ Any (λ e. e.stale ≡ true) es
  any_stale_iff [] = (λ h. cc, λ h. absurd h)
  any_stale_iff (e ∷ es) = ground (arith, any_stale_iff es)

  -- The report has an entry for each reference, in their order, with its key and path; an entry is not
  -- stale exactly when the file can be read and has the hash of the reference. The report is stale
  -- exactly when one of its entries is.
  pub check_stale-verdict :
      (m : Manifest)
      → (let report = check_stale read_file file_hash m in
          AllVerdicts m.symbols report.entries
          × ((report.stale ≡ true) ↔ Any (λ e. e.stale ≡ true) report.entries))
  unfolding check_stale
  check_stale-verdict m =
      subst
        (λ report.
          AllVerdicts m.symbols report.entries
          × ((report.stale ≡ true) ↔ Any (λ e. e.stale ≡ true) report.entries))
        (sym (
          check_from-verdict [] (record { entries = []; stale = false }) m.symbols
            (λ path c h. cc)))
        (map-AllVerdicts m.symbols, any_stale_iff (map verdict m.symbols))
