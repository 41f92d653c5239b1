-- ===== src/Policy/Audit/Backdated.antt =====
-- An amendment may carry a time of its own, and goes to the file of that day
-- (packages/policy/src/audit/file-sink.ts, `amend` and `write`).
use steelyard_sdk.Base.{
  ℕ, ◌<◌, ◌≡◌, ◌≢◌, refl, String, Bool, true, false, Option, some, List, [], ◌∷◌, str_eq,
  str_eq_refl, is_empty, ltb, ◌==◌, ok, arith,
}
use steelyard_sdk.Policy.Audit.{
  EntryBase, ChainBreak, Sink, day_of, append_line, find_entry, find_in, write, amended, amend,
  break_if, entry_hash_mismatch, verify_lines, verify_files, verify_chain,
}

module _ {A : Type 0} (hash : EntryBase A → Option String → String) where
  abbrev pub start : Sink A
  start = record { dir = []; last_hash = "" }

  still_broken :
      (bad : Bool) (x : ChainBreak) (breaks : List ChainBreak)
      → break_if hash bad x.file x.line entry_hash_mismatch (x ∷ breaks) ≢ []
  still_broken bad x breaks e = ground arith

  -- An amendment whose patch has a time of an earlier day than the log's only entry succeeds, and the
  -- verification of the log that it leaves reports a break, though nobody changed a line. No hash is
  -- the empty text.
  pub amend-backdated_breaks :
      (b : EntryBase A) (patch : A → A) (ts now : ℕ)
      → ((x : EntryBase A) (p : Option String) → is_empty (hash x p) ≡ false)
      → day_of ts < day_of b.ts
      → (s : Sink A) × (amend hash (hash b (some "")) patch (some ts) now (write hash b start)
          ≡ ok s)
        × (verify_chain hash s.dir ≢ [])
  unfolding amend write append_line find_entry find_in verify_chain verify_files verify_lines
      amended
  amend-backdated_breaks b patch ts now full back =
      let first = write hash b start in
      let other : (day_of ts == day_of b.ts) ≡ false = ground arith in
      let behind : ltb (day_of ts) (day_of b.ts) ≡ true = ground arith in
      let same : str_eq (hash b (some "")) (hash b (some "")) ≡ true =
        str_eq_refl (hash b (some "")) in
      (
        write hash (amended hash patch (some ts) now (hash b (some "")) b) first,
        rw (same, amend) refl,
        rw (other, behind, full b (some "")) (λ e. still_broken _ _ _ e),
      )
