-- ===== src/Oee/Fingerprint/Source.antt =====
-- The stored form of a fingerprint and its historian half.
use manufacturing_uns.Prelude.{none, some, false, refl, ℕ, ◌≡◌, String}
use manufacturing_uns.Oee.Fingerprint.{
  Fingerprint, with_manual, concat, is_colon, before_last_colon, source_part, as_text, time_text,
}

-- No character of this text is a colon.
abbrev pub NoColon : String → Type 0
NoColon String.[] = Unit
NoColon (String.◌∷◌ c s) = (is_colon c ≡ false) × NoColon s

before_last_colon-none : (s : String) → NoColon s → before_last_colon s ≡ none
unfolding before_last_colon
before_last_colon-none String.[] h = refl
before_last_colon-none (String.◌∷◌ c s) h = rw (before_last_colon-none s h.1, h.0) refl

before_last_colon-concat :
    (s t u : String)
    → before_last_colon t ≡ some u
    → before_last_colon (concat s t) ≡ some (concat s u)
unfolding before_last_colon concat
before_last_colon-concat String.[] t u h = h
before_last_colon-concat (String.◌∷◌ c s) t u h = rw (before_last_colon-concat s t u h) refl

colon-digest : (digest : String) → NoColon digest → before_last_colon (concat ":" digest) ≡ some ""
unfolding concat before_last_colon is_colon
colon-digest digest h = rw (before_last_colon-none digest h) refl

-- For every digest without a colon, the historian half of a stored fingerprint is the number of rows
-- and the latest time, with one colon between them, and no part of the digest.
pub source_part-as_text :
    (str isoformat : ℕ → String) (sha256_16 : String → String) (f : Fingerprint) (digest : String)
    → NoColon digest
    → source_part (as_text str isoformat sha256_16 (with_manual f digest))
      ≡ concat
          (str f.row_count)
          (concat ":" (concat (time_text str isoformat sha256_16 f.max_time) ""))
unfolding source_part as_text with_manual
source_part-as_text str isoformat sha256_16 f digest h =
    rw
      (
        source_part,
        before_last_colon-concat (str f.row_count)
            (concat ":" (concat (time_text str isoformat sha256_16 f.max_time) (concat ":" digest)))
            (concat ":" (concat (time_text str isoformat sha256_16 f.max_time) ""))
            (before_last_colon-concat ":"
              (concat (time_text str isoformat sha256_16 f.max_time) (concat ":" digest))
              (concat (time_text str isoformat sha256_16 f.max_time) "")
              (before_last_colon-concat (time_text str isoformat sha256_16 f.max_time)
                (concat ":" digest) "" (colon-digest digest h))),
      )
      refl
