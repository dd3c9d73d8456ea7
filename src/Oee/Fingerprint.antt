-- ===== src/Oee/Fingerprint.antt =====
-- What the input of a shift looked like: Fingerprint of 12_uns_oee/src/uns_oee/sources.py and
-- manual_digest of pipeline.py. Python's texts of a number and of an instant, and the first 16
-- characters of the SHA-256 digest of a text, are the parameters of the section.
pub mod Source
use manufacturing_uns.Prelude.{
  [], ◌∷◌, none, some, true, false, String, ℕ, Bool, List, Option, if◌then◌else◌, ◌==◌, not, leb,
}
use Prim.Native.Char.{Char, code}
use manufacturing_uns.Prelude.Result.{Result, ok, err, ◌>>=◌}
use manufacturing_uns.Prelude.Sort.{sorted}
use text.Mathlib.Text.{◌==◌ as str_eq}
use manufacturing_uns.Oee.Classifier.{ManualReason, ClassifiedStop, ReasonError}
use manufacturing_uns.Oee.Calc.{ShiftMetrics, ShiftInputs, compute}
use manufacturing_uns.Oee.Tables.{ShiftWindow, StoredResult, Database}
use manufacturing_uns.Oee.Store.{existing, manual_reasons, save, mark_published}
use manufacturing_uns.Oee.Inputs.{
  UnitMasterData, ExceptionWindow, ShiftSamples, shift_inputs, counter_resets, unclassified_seconds,
}

pub record Fingerprint : Type 0 where
  pub row_count : ℕ
  pub max_time : Option ℕ
  pub manual_digest : String

unfoldable pub with_manual : Fingerprint → String → Fingerprint
with_manual f digest = record f { manual_digest = digest }

unfoldable pub is_empty : Fingerprint → Bool
is_empty f = f.row_count == 0

unfoldable pub concat : String → String → String
concat String.[] t = t
concat (String.◌∷◌ c s) t = String.◌∷◌ c (concat s t)

unfoldable pub is_colon : Char → Bool
is_colon c = code c == 58

-- `text.rpartition(":")[0]`, where there is a colon.
unfoldable pub before_last_colon : String → Option String
unfolding is_colon
before_last_colon String.[] = none
before_last_colon (String.◌∷◌ c s) = elim (before_last_colon s) [
  | none ↦ if is_colon c then some String.[] else none
  | some t ↦ some (String.◌∷◌ c t)
]

unfoldable pub source_part : String → String
unfolding before_last_colon
source_part stored = elim (before_last_colon stored) [ none ↦ "" | some t ↦ t ]

module _ (str isoformat : ℕ → String) (sha256_16 : String → String) where
  unfoldable pub time_text : Option ℕ → String
  time_text none = "-"
  time_text (some at) = isoformat at

  unfoldable pub as_text : Fingerprint → String
  unfolding concat time_text
  as_text f =
      concat (str f.row_count)
        (concat ":" (concat (time_text f.max_time) (concat ":" f.manual_digest)))

  -- One part of the text that `manual_digest` hashes, and the parts joined by "|".
  unfoldable pub reason_text : ℕ × ManualReason → String
  unfolding concat
  reason_text (at, reason) = concat (isoformat at) (concat "=" reason.reason_code)

  unfoldable pub joined : List (ℕ × ManualReason) → String
  unfolding concat reason_text
  joined [] = ""
  joined (entry ∷ []) = reason_text entry
  joined (entry ∷ other ∷ rest) = concat (reason_text entry) (concat "|" (joined (other ∷ rest)))

  unfoldable pub manual_digest : List (ℕ × ManualReason) → String
  unfolding joined sorted
  manual_digest [] = "-"
  manual_digest (entry ∷ rest) = sha256_16 (joined (sorted (λ a b. leb a.0 b.0) (entry ∷ rest)))
