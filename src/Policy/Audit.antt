-- ===== src/Policy/Audit.antt =====
-- The audit log (packages/policy/src/audit/sink.ts, file-sink.ts and chain.ts): one file of lines for
-- each day, every entry with the hash of the entry before it. The fields of an entry that the log
-- does not read are of a type `A`; a patch of an amendment is a function on them. `hash` is
-- `hashEntry`, SHA-256 of the canonical JSON, and a parameter. The day of a time is its date, and the
-- names of the files sort as the days do. Byte offsets of a break are left out.
pub mod Chain
pub mod Tamper
pub mod Backdated
use steelyard_sdk.Base.{
  ℕ, ◌+◌, ◌/◌, String, Bool, true, false, not, ◌||◌, Option, some, none, List, [], ◌∷◌, ◌++◌,
  str_eq, is_empty, ltb, ◌==◌, if◌then◌else◌, Result, ok, err,
}

pub record EntryBase (A : Type 0) : Type 0 where
  pub ts : ℕ
  pub fields : A
  pub amends : Option String

-- A line of a file: an entry, of which a hash may be missing, or a text that is no JSON.
pub data Line (A : Type 0) : Type 0 where
  entry : EntryBase A → (prev_hash entry_hash : Option String) → Line A
  no_json : Line A

-- The files by their day, in order.
abbrev pub Dir : Type 0 → Type 0
Dir A = List (ℕ × List (Line A))

pub data BreakReason : Type 0 where
  invalid_json entry_hash_mismatch prev_hash_mismatch : BreakReason

pub record ChainBreak : Type 0 where
  pub file : ℕ
  pub line : ℕ
  pub reason : BreakReason

pub data AuditError : Type 0 where
  entry_not_found unreadable : AuditError

pub record Sink (A : Type 0) : Type 0 where
  pub dir : Dir A
  pub last_hash : String

-- `ts.slice(0, 10)`
abbrev pub day_of : ℕ → ℕ
day_of ts = ts / 86400000

abbrev pub or_empty : Option String → String
or_empty none = ""
or_empty (some h) = h

abbrev pub is_text : Option String → String → Bool
is_text none h = false
is_text (some x) h = str_eq x h

module _ {A : Type 0} where
  -- `appendFileSync`, which makes the file if it is not there
  unfoldable pub append_line : ℕ → Line A → Dir A → Dir A
  append_line day line [] = (day, line ∷ []) ∷ []
  append_line day line ((d, lines) ∷ dir) =
      let rest = append_line day line dir in
      if day == d
      then (d, lines ++ line ∷ []) ∷ dir
      else if ltb day d
      then (day, line ∷ []) ∷ (d, lines) ∷ dir
      else (d, lines) ∷ rest

  abbrev last_of : Line A → List (Line A) → Line A
  last_of line [] = line
  last_of line (next ∷ lines) = last_of next lines

  abbrev hash_of_line : Line A → Result AuditError (Option String)
  hash_of_line (entry b prev h) = ok h
  hash_of_line no_json = err unreadable

  -- `tailHash`; a file has a line, since it is made with one
  unfoldable pub tail_hash : Dir A → Result AuditError (Option String)
  tail_hash [] = ok (some "")
  tail_hash ((d, []) ∷ []) = ok (some "")
  tail_hash ((d, line ∷ lines) ∷ []) = hash_of_line (last_of line lines)
  tail_hash (file ∷ next ∷ dir) = tail_hash (next ∷ dir)

  abbrev found_or :
      Bool → EntryBase A → Result AuditError (EntryBase A) → Result AuditError (EntryBase A)
  found_or true b rest = ok b
  found_or false b rest = rest

  unfoldable pub find_in :
      String → List (Line A) → Result AuditError (EntryBase A) → Result AuditError (EntryBase A)
  find_in h [] rest = rest
  find_in h (no_json ∷ lines) rest = err unreadable
  find_in h (entry b prev hash ∷ lines) rest = found_or (is_text hash h) b (find_in h lines rest)

  unfoldable pub find_entry : String → Dir A → Result AuditError (EntryBase A)
  find_entry h [] = err entry_not_found
  find_entry h ((d, lines) ∷ dir) = find_in h lines (find_entry h dir)

  module _ (hash : EntryBase A → Option String → String) where
    -- `write`
    unfoldable pub write : EntryBase A → Sink A → Sink A
    write b s = record {
      dir =
          append_line (day_of b.ts) (entry b (some s.last_hash) (some (hash b (some s.last_hash))))
            s.dir;
      last_hash = hash b (some s.last_hash);
    }

    abbrev ts_or : Option ℕ → ℕ → ℕ
    ts_or none now = now
    ts_or (some ts) now = ts

    -- the entry that an amendment writes; `ts` is that of the patch, if it has one
    unfoldable pub amended : (A → A) → Option ℕ → (now : ℕ) → String → EntryBase A → EntryBase A
    amended patch ts now h b = record {
      ts = ts_or ts now;
      fields = patch b.fields;
      amends = some h;
    }

    unfoldable pub amend :
        String → (A → A) → Option ℕ → (now : ℕ) → Sink A → Result AuditError (Sink A)
    amend h patch ts now s = elim (find_entry h s.dir) [
      | err e ↦ err e
      | ok b ↦ ok (write (amended patch ts now h b) s)
    ]

    abbrev break_if : Bool → ℕ → ℕ → BreakReason → List ChainBreak → List ChainBreak
    break_if true file line reason breaks =
        record { file = file; line = line; reason = reason } ∷ breaks
    break_if false file line reason breaks = breaks

    -- `!entry_hash || hashEntry(withoutHash) !== entry_hash`
    abbrev pub bad_hash : EntryBase A → Option String → Option String → Bool
    bad_hash b prev none = true
    bad_hash b prev (some h) = is_empty h || not (str_eq (hash b prev) h)

    -- the lines of one file, then the files after it; `next` counts the lines from 1
    unfoldable pub verify_lines :
        (file next : ℕ)
        → List (Line A)
        → String
        → (String → List ChainBreak × String)
        → List ChainBreak × String
    verify_lines file next [] prev rest = rest prev
    verify_lines file next (no_json ∷ lines) prev rest =
        let (breaks, last) = verify_lines file (next + 1) lines prev rest in
        (break_if true file next invalid_json breaks, last)
    verify_lines file next (entry b p h ∷ lines) prev rest =
        let (breaks, last) = verify_lines file (next + 1) lines (or_empty h) rest in
        (
          break_if (bad_hash b p h) file next entry_hash_mismatch
              (break_if (not (is_text p prev)) file next prev_hash_mismatch breaks),
          last,
        )

    unfoldable pub verify_files : Dir A → String → List ChainBreak × String
    verify_files [] prev = ([], prev)
    verify_files ((d, lines) ∷ dir) prev = verify_lines d 1 lines prev (verify_files dir)

    -- `verifyChain`: the breaks; the log is intact if there are none
    unfoldable pub verify_chain : Dir A → List ChainBreak
    verify_chain dir = (verify_files dir "").0
