-- ===== src/Policy/Audit/Tamper.antt =====
-- What the last hash of an intact log fixes (packages/policy/src/audit/chain.ts).
use mathlib.Core.Path.{subst}
use steelyard_sdk.Base.{
  ℕ, ◌+◌, ◌≡◌, refl, sym, ap, ◌∙◌, String, Bool, true, false, not, Option, some, none, List, [],
  ◌∷◌, str_eq_iff, is_empty, arith, All,
}
use steelyard_sdk.Policy.Audit.{
  EntryBase, Line, entry, no_json, Dir, ChainBreak, entry_hash_mismatch, prev_hash_mismatch,
  or_empty, is_text, bad_hash, break_if, verify_lines, verify_files, verify_chain,
}
use steelyard_sdk.Policy.Audit.Chain.{flat, Chained, Chained-append}

module _ {A : Type 0} (hash : EntryBase A → Option String → String) where
  unbroken :
      (bad mismatch : Bool) (file next : ℕ) (breaks : List ChainBreak)
      → break_if hash bad file next entry_hash_mismatch
          (break_if hash mismatch file next prev_hash_mismatch breaks)
        ≡ []
      → (bad ≡ false) × (mismatch ≡ false) × (breaks ≡ [])
  unbroken bad mismatch file next breaks e = ground arith

  Chained-verify_lines :
      (file next : ℕ) (lines : List (Line A)) (prev : String)
      (rest : String → List ChainBreak × String)
      → (verify_lines hash file next lines prev rest).0 ≡ []
      → (mid : String) × Chained hash lines prev mid
        × ((rest mid).0 ≡ [])
        × ((verify_lines hash file next lines prev rest).1 ≡ (rest mid).1)
  unfolding verify_lines
  Chained-verify_lines file next [] prev rest e = (prev, refl, e, refl)
  Chained-verify_lines file next (no_json ∷ lines) prev rest e = absurd (cc e)
  Chained-verify_lines file next (entry b p h ∷ lines) prev rest e =
      let (good, linked, later) =
        unbroken (bad_hash hash b p h) (not (is_text p prev)) file next _ e in
      let (mid, chained, none_after, last) =
        Chained-verify_lines file (next + 1) lines (or_empty h) rest later in
      (mid, (ground (arith, linked), good, chained), none_after, last)

  Chained-verify_files :
      (dir : Dir A) (prev : String)
      → (verify_files hash dir prev).0 ≡ []
      → Chained hash (flat dir) prev (verify_files hash dir prev).1
  unfolding verify_files
  Chained-verify_files [] prev e = refl
  Chained-verify_files ((d, lines) ∷ dir) prev e =
      let (mid, before, clean, last) =
        Chained-verify_lines d 1 lines prev (verify_files hash dir) e in
      Chained-append hash lines (flat dir) prev mid _ before
        (subst (λ l. Chained hash (flat dir) mid l) (sym last) (Chained-verify_files dir mid clean))

  -- The lines in reverse, each with the hash that comes before it.
  abbrev Back : List (Line A) → String → Type 0
  Back [] last = last ≡ ""
  Back (no_json ∷ lines) last = ⊥
  Back (entry b p h ∷ lines) last =
      (h ≡ some last)
      × (hash b p ≡ last)
      × (is_empty last ≡ false)
      × ((prev : String) × (p ≡ some prev) × Back lines prev)

  abbrev onto : List (Line A) → List (Line A) → List (Line A)
  onto [] acc = acc
  onto (x ∷ xs) acc = onto xs (x ∷ acc)

  onto_twice : (xs acc : List (Line A)) → onto (onto xs acc) [] ≡ onto acc xs
  onto_twice [] acc = refl
  onto_twice (x ∷ xs) acc = onto_twice xs (x ∷ acc)

  good_hash :
      (b : EntryBase A) (p h : Option String)
      → bad_hash hash b p h ≡ false
      → (h ≡ some (or_empty h)) × (hash b p ≡ or_empty h) × (is_empty (or_empty h) ≡ false)
  good_hash b p none e = ground arith
  good_hash b p (some h) e = (refl, ground (arith, str_eq_iff (hash b p) h), ground arith)

  linked_to : (p : Option String) (prev : String) → is_text p prev ≡ true → p ≡ some prev
  linked_to none prev e = ground arith
  linked_to (some x) prev e = ap some ((str_eq_iff x prev).0 e)

  Back-onto :
      (xs acc : List (Line A)) (prev last : String)
      → Chained hash xs prev last
      → Back acc prev
      → Back (onto xs acc) last
  Back-onto [] acc prev last h k = subst (λ l. Back acc l) h k
  Back-onto (no_json ∷ xs) acc prev last h k = absurd h
  Back-onto (entry b p y ∷ xs) acc prev last h k =
      let (is_some_hash, is_hash, full) = good_hash b p y h.1 in
      Back-onto xs (entry b p y ∷ acc) (or_empty y) last h.2
        (is_some_hash, is_hash, full, (prev, linked_to p prev h.0, k))

  -- Two entries of one hash are the same entry after the same hash.
  abbrev pub NoClash : Line A → Line A → Type 0
  NoClash (entry b p h) (entry c q k) = hash b p ≡ hash c q → (b ≡ c) × (p ≡ q)
  NoClash _ _ = Unit

  abbrev pub NoCollision : List (Line A) → List (Line A) → Type 0
  NoCollision xs ys = All (λ x. All (λ y. NoClash x y) ys) xs

  All-onto :
      (P : Line A → Type 0) (xs acc : List (Line A)) → All P xs → All P acc → All P (onto xs acc)
  All-onto P [] acc h k = k
  All-onto P (x ∷ xs) acc h k = All-onto P xs (x ∷ acc) h.1 (h.0, k)

  All-all :
      (xs ys acc : List (Line A))
      → NoCollision xs ys
      → NoCollision xs acc
      → NoCollision xs (onto ys acc)
  All-all [] ys acc h k = tt
  All-all (x ∷ xs) ys acc h k = (All-onto _ ys acc h.0 k.0, All-all xs ys acc h.1 k.1)

  empty_all : (xs : List (Line A)) → NoCollision xs []
  empty_all [] = tt
  empty_all (x ∷ xs) = (tt, empty_all xs)

  none_tail : (x : Line A) (xs ys : List (Line A)) → NoCollision ys (x ∷ xs) → NoCollision ys xs
  none_tail x xs [] h = tt
  none_tail x xs (y ∷ ys) h = (h.0.1, none_tail x xs ys h.1)

  Back-unique :
      (xs ys : List (Line A)) (last : String)
      → NoCollision xs ys
      → Back xs last
      → Back ys last
      → xs ≡ ys
  Back-unique [] [] last n h k = refl
  Back-unique [] (no_json ∷ ys) last n h k = absurd k
  Back-unique [] (entry b p x ∷ ys) last n h k = ground (arith, k.2, str_eq_iff last "")
  Back-unique (no_json ∷ xs) ys last n h k = absurd h
  Back-unique (entry b p x ∷ xs) [] last n h k = ground (arith, h.2, str_eq_iff last "")
  Back-unique (entry b p x ∷ xs) (no_json ∷ ys) last n h k = absurd k
  Back-unique (entry b p x ∷ xs) (entry c q y ∷ ys) last n h k =
      let (same_b, same_p) = n.0.0 (h.1 ∙ sym k.1) in
      let same_x : x ≡ y = h.0 ∙ sym k.0 in
      let (r, is_r, before) = h.3 in
      let (t, is_t, before') = k.3 in
      let same_prev : t ≡ r = cc (is_r, is_t, same_p) in
      let rest =
        Back-unique xs ys r (none_tail (entry c q y) ys xs n.1) before
          (subst (λ l. Back ys l) same_prev before') in
      cc (same_b, same_p, same_x, rest)

  -- Two logs without a break that end in the same hash have the same lines, if no two different entries of
  -- them have the same hash: what the last hash was taken of cannot be changed, dropped, added to or
  -- reordered without a break.
  pub verify_chain-fixes :
      (dir dir' : Dir A)
      → verify_chain hash dir ≡ []
      → verify_chain hash dir' ≡ []
      → (verify_files hash dir "").1 ≡ (verify_files hash dir' "").1
      → NoCollision (flat dir) (flat dir')
      → flat dir ≡ flat dir'
  unfolding verify_chain
  verify_chain-fixes dir dir' e e' last n =
      let back = Back-onto (flat dir) [] "" _ (Chained-verify_files dir "" e) refl in
      let back' = Back-onto (flat dir') [] "" _ (Chained-verify_files dir' "" e') refl in
      let apart =
        All-onto _ (flat dir) [] (All-all (flat dir) (flat dir') [] n (empty_all (flat dir))) tt in
      let same =
        Back-unique (onto (flat dir) []) (onto (flat dir') []) _ apart back
          (subst (λ l. Back (onto (flat dir') []) l) (sym last) back') in
      sym (onto_twice (flat dir) []) ∙ ap (λ l. onto l []) same ∙ onto_twice (flat dir') []
