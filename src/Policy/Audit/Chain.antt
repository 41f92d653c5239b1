-- ===== src/Policy/Audit/Chain.antt =====
-- The log stays chained while the days of its entries do not go back
-- (packages/policy/src/audit/file-sink.ts and chain.ts).
use steelyard_sdk.Base.{
  ℕ, ◌+◌, ◌≤◌, ◌<◌, ◌≡◌, refl, sym, ap, ◌∙◌, String, true, false, Option, some, List, [], ◌∷◌, ◌++◌,
  str_eq_refl, is_empty, ltb, ◌==◌, ok, arith, inl, inr, Bool-cases,
}
use mathlib.Core.Path.{subst}
use mathlib.Core.List.{append-nil, append_assoc}
use steelyard_sdk.Policy.Audit.{
  EntryBase, Line, entry, no_json, Dir, ChainBreak, Sink, day_of, or_empty, is_text, append_line,
  tail_hash, last_of, hash_of_line, find_entry, write, amended, amend, bad_hash, verify_lines,
  verify_files, verify_chain,
}

module _ {A : Type 0} where
  abbrev pub flat : Dir A → List (Line A)
  flat [] = []
  flat ((d, lines) ∷ dir) = lines ++ flat dir

  -- The files are strictly in order, and of days from `low` to `day`.
  abbrev pub Ordered : (low day : ℕ) → Dir A → Type 0
  Ordered low day [] = Unit
  Ordered low day ((d, lines) ∷ dir) = (low ≤ d) × (d ≤ day) × Ordered (d + 1) day dir

  pub Ordered-later :
      (low day later : ℕ) (dir : Dir A) → day ≤ later → Ordered low day dir → Ordered low later dir
  Ordered-later low day later [] h o = tt
  Ordered-later low day later ((d, lines) ∷ dir) h o =
      (o.0, omega (arith, o.1), Ordered-later (d + 1) day later dir h o.2)

  Ordered-past : (low day : ℕ) (dir : Dir A) → day < low → Ordered low day dir → dir ≡ []
  Ordered-past low day [] h o = refl
  Ordered-past low day ((d, lines) ∷ dir) h o = absurd (omega (arith, o.0, o.1))

  -- A line of the last day, or of a later one, goes to the end.
  pub flat-append_line :
      (low day : ℕ) (line : Line A) (dir : Dir A)
      → Ordered low day dir
      → flat (append_line day line dir) ≡ flat dir ++ line ∷ []
  unfolding append_line
  flat-append_line low day line [] o = refl
  flat-append_line low day line ((d, lines) ∷ dir) o = elim (Bool-cases (day == d)) [
    | inl same ↦
        let none_after : dir ≡ [] = Ordered-past (d + 1) day dir (ground arith) o.2 in
        rw (same, none_after)
          (append-nil (lines ++ line ∷ []) ∙ ap (λ l. l ++ line ∷ []) (sym (append-nil lines)))
    | inr other ↦
        let behind : ltb day d ≡ false = ground (arith, o.1) in
        rw (other, behind)
          (ap (λ l. lines ++ l) (flat-append_line (d + 1) day line dir o.2)
            ∙ sym (append_assoc lines (flat dir) (line ∷ [])))
  ]

  pub Ordered-append_line :
      (low day : ℕ) (line : Line A) (dir : Dir A)
      → low ≤ day
      → Ordered low day dir
      → Ordered low day (append_line day line dir)
  unfolding append_line
  Ordered-append_line low day line [] h o = (h, omega arith, tt)
  Ordered-append_line low day line ((d, lines) ∷ dir) h o = elim (Bool-cases (day == d)) [
    | inl same ↦ rw same o
    | inr other ↦
        let behind : ltb day d ≡ false = ground (arith, o.1) in
        rw (other, behind)
          (o.0, o.1, Ordered-append_line (d + 1) day line dir (ground (arith, o.1)) o.2)
  ]

  hash_of_line-last_of :
      (line first : Line A) (lines : List (Line A))
      → hash_of_line (last_of first (lines ++ line ∷ [])) ≡ hash_of_line line
  hash_of_line-last_of line first [] = refl
  hash_of_line-last_of line first (next ∷ lines) = hash_of_line-last_of line next lines

  tail_hash-file :
      (day : ℕ) (line : Line A) (lines : List (Line A))
      → tail_hash ((day, lines ++ line ∷ []) ∷ []) ≡ hash_of_line line
  unfolding tail_hash
  tail_hash-file day line [] = refl
  tail_hash-file day line (first ∷ lines) = hash_of_line-last_of line first lines

  tail_hash-cons :
      (d day : ℕ) (line : Line A) (lines : List (Line A)) (dir : Dir A)
      → tail_hash ((d, lines) ∷ append_line day line dir) ≡ tail_hash (append_line day line dir)
  unfolding tail_hash append_line
  tail_hash-cons d day line lines [] = refl
  tail_hash-cons d day line lines ((e, more) ∷ dir) = ground arith

  -- so that a sink that is opened again reads the hash of the last line
  pub tail_hash-append_line :
      (low day : ℕ) (line : Line A) (dir : Dir A)
      → Ordered low day dir
      → tail_hash (append_line day line dir) ≡ hash_of_line line
  unfolding append_line
  tail_hash-append_line low day line [] o = tail_hash-file day line []
  tail_hash-append_line low day line ((d, lines) ∷ dir) o = elim (Bool-cases (day == d)) [
    | inl same ↦
        let none_after : dir ≡ [] = Ordered-past (d + 1) day dir (ground arith) o.2 in
        rw (same, none_after) (tail_hash-file d line lines)
    | inr other ↦
        let behind : ltb day d ≡ false = ground (arith, o.1) in
        rw (other, behind)
          (tail_hash-cons d day line lines dir ∙ tail_hash-append_line (d + 1) day line dir o.2)
  ]

  module _ (hash : EntryBase A → Option String → String) where
    -- The lines are entries, each with its hash and with that of the entry before it.
    abbrev pub Chained : List (Line A) → String → String → Type 0
    Chained [] prev last = prev ≡ last
    Chained (no_json ∷ lines) prev last = ⊥
    Chained (entry b p h ∷ lines) prev last =
        (is_text p prev ≡ true) × (bad_hash hash b p h ≡ false) × Chained lines (or_empty h) last

    pub Chained-append :
        (xs ys : List (Line A)) (p q r : String)
        → Chained xs p q
        → Chained ys q r
        → Chained (xs ++ ys) p r
    Chained-append [] ys p q r h k = subst (λ x. Chained ys x r) (sym h) k
    Chained-append (no_json ∷ xs) ys p q r h k = h
    Chained-append (entry b x y ∷ xs) ys p q r h k =
        (h.0, h.1, Chained-append xs ys (or_empty y) q r h.2 k)

    Chained-split :
        (xs ys : List (Line A)) (p r : String)
        → Chained (xs ++ ys) p r
        → (q : String) × Chained xs p q × Chained ys q r
    Chained-split [] ys p r h = (p, refl, h)
    Chained-split (no_json ∷ xs) ys p r h = absurd h
    Chained-split (entry b x y ∷ xs) ys p r h =
        let (q, before, after) = Chained-split xs ys (or_empty y) r h.2 in
        (q, (h.0, h.1, before), after)

    verify_lines-Chained :
        (file next : ℕ) (lines : List (Line A)) (prev mid : String)
        (rest : String → List ChainBreak × String)
        → Chained lines prev mid
        → verify_lines hash file next lines prev rest ≡ rest mid
    unfolding verify_lines
    verify_lines-Chained file next [] prev mid rest h = ap rest h
    verify_lines-Chained file next (no_json ∷ lines) prev mid rest h = absurd h
    verify_lines-Chained file next (entry b p y ∷ lines) prev mid rest h =
        let later = verify_lines-Chained file (next + 1) lines (or_empty y) mid rest h.2 in
        rw (h.0, h.1, later)

    pub verify_files-Chained :
        (dir : Dir A) (prev last : String)
        → Chained (flat dir) prev last
        → verify_files hash dir prev ≡ ([], last)
    unfolding verify_files
    verify_files-Chained [] prev last h = ap (λ p. ([], p)) h
    verify_files-Chained ((d, lines) ∷ dir) prev last h =
        let (mid, before, after) = Chained-split lines (flat dir) prev last h in
        verify_lines-Chained d 1 lines prev mid (verify_files hash dir) before
        ∙ verify_files-Chained dir mid last after

    -- The state of a log whose last entry is of `day` at the latest.
    pub record IsIntact (day : ℕ) (s : Sink A) : Type 0 where
      pub ordered : Ordered 0 day s.dir
      pub chained : Chained (flat s.dir) "" s.last_hash
      pub tail : tail_hash s.dir ≡ ok (some s.last_hash)

    write-IsIntact :
        (day : ℕ) (b : EntryBase A) (s : Sink A)
        → ((x : EntryBase A) (p : Option String) → is_empty (hash x p) ≡ false)
        → day ≤ day_of b.ts
        → IsIntact day s
        → IsIntact (day_of b.ts) (write hash b s)
    unfolding write
    write-IsIntact day b s full later i =
        let ordered = Ordered-later 0 day (day_of b.ts) s.dir later i.ordered in
        record {
          ordered = Ordered-append_line 0 (day_of b.ts) _ s.dir (omega arith) ordered;
          chained =
              rw
                (flat-append_line 0 (day_of b.ts)
                  (entry b (some s.last_hash) (some (hash b (some s.last_hash)))) s.dir ordered)
                (Chained-append (flat s.dir) _ "" s.last_hash _ i.chained
                  (str_eq_refl s.last_hash, rw (full b (some s.last_hash), str_eq_refl), refl));
          tail = tail_hash-append_line 0 (day_of b.ts) _ s.dir ordered;
        }

    -- What a sink does: it appends an entry, or amends one, in any order; the days do not go back.
    pub data Step (day : ℕ) (s : Sink A) : ℕ → Sink A → Type 0 where
      appended : (b : EntryBase A) → day ≤ day_of b.ts → Step day s (day_of b.ts) (write hash b s)
      was_amended :
          (h : String) (patch : A → A) (ts : Option ℕ) (now : ℕ) (b : EntryBase A) (s' : Sink A)
          → find_entry h s.dir ≡ ok b
          → day ≤ day_of (amended hash patch ts now h b).ts
          → amend hash h patch ts now s ≡ ok s'
          → Step day s (day_of (amended hash patch ts now h b).ts) s'

    pub data Reach (day : ℕ) (s : Sink A) : ℕ → Sink A → Type 0 where
      here : Reach day s day s
      next : {d e : ℕ} {t u : Sink A} → Reach day s d t → Step d t e u → Reach day s e u

    Step-IsIntact :
        (d e : ℕ) (t u : Sink A)
        → ((x : EntryBase A) (p : Option String) → is_empty (hash x p) ≡ false)
        → Step d t e u
        → IsIntact d t
        → IsIntact e u
    unfolding amend
    Step-IsIntact d e t u full (appended b later) i = write-IsIntact d b t full later i
    Step-IsIntact d e t u full (was_amended h patch ts now b s' found later e') i =
        let same : write hash (amended hash patch ts now h b) t ≡ s' = ground arith in
        subst (λ x. IsIntact (day_of (amended hash patch ts now h b).ts) x) same
          (write-IsIntact d (amended hash patch ts now h b) t full later i)

    Reach-IsIntact :
        (d : ℕ) (t : Sink A) (e : ℕ) (u : Sink A)
        → ((x : EntryBase A) (p : Option String) → is_empty (hash x p) ≡ false)
        → Reach d t e u
        → IsIntact d t
        → IsIntact e u
    Reach-IsIntact d t e u full here i = i
    Reach-IsIntact d t e u full (next {d = m} {t = v} r st) i =
        Step-IsIntact m e v u full st (Reach-IsIntact d t m v full r i)

    -- From an empty log, after any appends and amendments in any order whose days do not go back, the
    -- verification finds no break, and a sink that is opened again reads the hash that this one holds.
    -- No hash is the empty text.
    pub Reach-verified :
        (day : ℕ) (s : Sink A)
        → ((x : EntryBase A) (p : Option String) → is_empty (hash x p) ≡ false)
        → Reach 0 (record { dir = []; last_hash = "" }) day s
        → (verify_chain hash s.dir ≡ []) × (tail_hash s.dir ≡ ok (some s.last_hash))
    unfolding verify_chain tail_hash
    Reach-verified day s full r =
        let i =
          Reach-IsIntact 0 _ day s full r (record { ordered = tt; chained = refl; tail = refl }) in
        (ap (λ p. p.0) (verify_files-Chained s.dir "" s.last_hash i.chained), i.tail)
