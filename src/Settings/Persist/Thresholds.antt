-- ===== src/Settings/Persist/Thresholds.antt =====
-- `_persist_anomalies_config` changes no character but those of numbers.
use pika_pika.Prelude.{suc, ◌≡◌, refl, some, All}
use pika_pika.Prelude.Int.{ℤ, pos, negsuc}
use pika_pika.Text.{Text}
use pika_pika.Settings.Pattern.{field, is_digit, is_decimal, run, signed_run}
use pika_pika.Settings.Decimal.{str_int}
use pika_pika.Settings.Persist.{Anomalies, in_block, replacements, persist_anomalies_config}
use pika_pika.Settings.Persist.Layout.{layout, AreNumeric, is_numeric}
use pika_pika.Settings.Persist.Number.{str_nat-AreNumeric}
use pika_pika.Settings.Persist.Splits.{
  Splits, IsNumeric, replace_all-layout, field-Splits, in_block-Splits, digits-ReadsNumber,
  signed-ReadsNumber, decimal-ReadsNumber,
}

str_int-AreNumeric : (z : ℤ) → AreNumeric (str_int z)
unfolding str_int is_numeric is_decimal
str_int-AreNumeric (pos n) = str_nat-AreNumeric n
str_int-AreNumeric (negsuc n) = (refl, str_nat-AreNumeric (suc n))

block_field : (header key : Text) → Splits (in_block header (field key (run is_digit)))
block_field header key = in_block-Splits header _ (field-Splits key _ digits-ReadsNumber)

signed_field : (header key : Text) → Splits (in_block header (field key signed_run))
signed_field header key = in_block-Splits header _ (field-Splits key _ signed-ReadsNumber)

replacements-AreNumeric :
    {W : Type 0} (print_tenths : W → Text) (values : Anomalies W)
    → AreNumeric (print_tenths values.target_mains_vrms)
    → All IsNumeric (replacements print_tenths values)
unfolding replacements
replacements-AreNumeric print_tenths values n = (
  (signed_field _ _, str_int-AreNumeric _),
  (
    (block_field _ _, str_int-AreNumeric _),
    (
      (signed_field _ _, str_int-AreNumeric _),
      (
        (block_field _ _, str_int-AreNumeric _),
        (
          (field-Splits _ _ decimal-ReadsNumber, n),
          (
            (field-Splits _ _ digits-ReadsNumber, str_int-AreNumeric _),
            ((field-Splits _ _ digits-ReadsNumber, str_int-AreNumeric _), tt),
          ),
        ),
      ),
    ),
  ),
)

-- If `_persist_anomalies_config` turns a text into a new one, and the format `.1f` prints the target
-- voltage with digits, a sign and a point only, then the two texts are the same without the
-- characters of numbers: no key, line or word of a comment is lost or moved.
pub persist_anomalies_config-layout :
    {W : Type 0} (print_tenths : W → Text) (values : Anomalies W) (text new : Text)
    → AreNumeric (print_tenths values.target_mains_vrms)
    → persist_anomalies_config print_tenths text values ≡ some new
    → layout new ≡ layout text
unfolding persist_anomalies_config
persist_anomalies_config-layout print_tenths values text new n e =
    replace_all-layout (replacements print_tenths values) text new
      (replacements-AreNumeric print_tenths values n) e
