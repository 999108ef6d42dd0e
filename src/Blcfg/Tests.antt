-- ===== src/Blcfg/Tests.antt =====
-- A sample configuration text, and values written into it.
use rpi5_uefi_build.Common.{
  All, ℕ, ◌≡◌, ◌↔◌, refl, arith, inr, some, List, [], ◌∷◌, ◌==◌, if◌then◌else◌,
}
use rpi5_uefi_build.Blcfg.{CompareLib, Values, values_from_text, is_line_of, line_of, after_line}
use rpi5_uefi_build.Blcfg.Build.{
  build_new_config_text, copy_loop, ended_then_append, end_line, append_loop, put_missing, put_line,
  match_key, append_wanted, key_value, key_line, psu_digits, has_newline, is_unended,
}
use rpi5_uefi_build.Blcfg.Canonical.{IsCanonical}
use rpi5_uefi_build.Blcfg.Data.{values_from_data, values_to_data}
use rpi5_uefi_build.Blcfg.Form.{values_from_data-values_to_data}
use rpi5_uefi_build.Blcfg.Kept.{Keeps, unmanaged, build_new_config_text-Keeps}
use rpi5_uefi_build.Blcfg.Lines.{IsLine, flat}
use rpi5_uefi_build.Blcfg.Rebuild.{IsLine-decided}
use rpi5_uefi_build.Blcfg.RoundTrip.{values_from_text-build_new_config_text}
use rpi5_uefi_build.Blcfg.Total.{build_new_config_text_total}

-- 0 for equal lists, else 1.
abbrev compare_list : List ℕ → List ℕ → ℕ
compare_list [] [] = 0
compare_list [] (y ∷ ys) = 1
compare_list (x ∷ xs) [] = 1
compare_list (x ∷ xs) (y ∷ ys) = let rest = compare_list xs ys in if x == y then rest else 1

pub compare_list_iff : (a b : List ℕ) → (compare_list a b ≡ 0) ↔ (a ≡ b)
compare_list_iff [] [] = ((λ e. refl), (λ e. refl))
compare_list_iff [] (y ∷ ys) = ((λ e. absurd (omega arith)), (λ e. cc))
compare_list_iff (x ∷ xs) [] = ((λ e. absurd (omega arith)), (λ e. cc))
compare_list_iff (x ∷ xs) (y ∷ ys) =
    let rest = compare_list_iff xs ys in ((λ e. ground (arith, rest)), (λ e. ground (arith, rest)))

abbrev pub plain : CompareLib
plain = record {
  compare_mem = compare_list;
  compare_mem_iff = λ a b same_length. compare_list_iff a b;
  ascii_str_cmp = compare_list;
  ascii_str_cmp_iff = compare_list_iff;
}

abbrev wanted : Values
wanted = record { order = b'0' ∷ b'x' ∷ b'f' ∷ b'6' ∷ []; uart = 1; halt = 0; wake = 1; psu = 5000 }

wanted-IsCanonical : IsCanonical wanted
wanted-IsCanonical = record {
  digits = b'f' ∷ b'6' ∷ [];
  order_is = refl;
  some_digit = omega arith;
  few = omega arith;
  hex = (refl, (refl, tt));
  uart_flag = omega arith;
  halt_flag = omega arith;
  wake_flag = omega arith;
  psu_known = inr (inr refl);
}

-- "[all]\nBOOT_ORDER=0xf1\nA=1"
abbrev text : List ℕ
text =
    b'[' ∷ b'a' ∷ b'l' ∷ b'l' ∷ b']' ∷ 10 ∷ b'B' ∷ b'O' ∷ b'O' ∷ b'T' ∷ b'_' ∷ b'O' ∷ b'R' ∷ b'D'
    ∷ b'E' ∷ b'R' ∷ b'=' ∷ b'0' ∷ b'x' ∷ b'f' ∷ b'1' ∷ 10 ∷ b'A' ∷ b'=' ∷ b'1' ∷ []

-- "[all]\nBOOT_ORDER=0xf6\nA=1\nBOOT_UART=1\nPSU_MAX_CURRENT=5000\n"
abbrev rebuilt : List ℕ
rebuilt =
    b'[' ∷ b'a' ∷ b'l' ∷ b'l' ∷ b']' ∷ 10 ∷ b'B' ∷ b'O' ∷ b'O' ∷ b'T' ∷ b'_' ∷ b'O' ∷ b'R' ∷ b'D'
    ∷ b'E' ∷ b'R' ∷ b'=' ∷ b'0' ∷ b'x' ∷ b'f' ∷ b'6' ∷ 10 ∷ b'A' ∷ b'=' ∷ b'1' ∷ 10 ∷ b'B' ∷ b'O'
    ∷ b'O' ∷ b'T' ∷ b'_' ∷ b'U' ∷ b'A' ∷ b'R' ∷ b'T' ∷ b'=' ∷ b'1' ∷ 10 ∷ b'P' ∷ b'S' ∷ b'U' ∷ b'_'
    ∷ b'M' ∷ b'A' ∷ b'X' ∷ b'_' ∷ b'C' ∷ b'U' ∷ b'R' ∷ b'R' ∷ b'E' ∷ b'N' ∷ b'T' ∷ b'=' ∷ b'5'
    ∷ b'0' ∷ b'0' ∷ b'0' ∷ 10 ∷ []

text-rebuilt : build_new_config_text plain wanted 1000 text ≡ some rebuilt
unfolding build_new_config_text copy_loop ended_then_append end_line append_loop put_missing
    put_line match_key append_wanted key_value key_line psu_digits has_newline is_unended is_line_of
    line_of after_line
text-rebuilt = refl

values_from_text-build_new_config_text_example : values_from_text plain rebuilt ≡ wanted
values_from_text-build_new_config_text_example =
    values_from_text-build_new_config_text plain wanted 1000 wanted-IsCanonical text rebuilt
      text-rebuilt

values_from_data-values_to_data_example : values_from_data (values_to_data wanted) ≡ some wanted
values_from_data-values_to_data_example = values_from_data-values_to_data wanted wanted-IsCanonical

build_new_config_text_total_example :
    (out : List ℕ) × (build_new_config_text plain wanted 1000 text ≡ some out)
build_new_config_text_total_example =
    build_new_config_text_total plain wanted 1000 wanted-IsCanonical text (omega arith)

abbrev sample_lines : List (List ℕ)
sample_lines =
    (b'[' ∷ b'a' ∷ b'l' ∷ b'l' ∷ b']' ∷ [])
    ∷ (b'B' ∷ b'O' ∷ b'O' ∷ b'T' ∷ b'_' ∷ b'O' ∷ b'R' ∷ b'D' ∷ b'E' ∷ b'R' ∷ b'=' ∷ b'0' ∷ b'x'
        ∷ b'f' ∷ b'1' ∷ [])
    ∷ (b'A' ∷ b'=' ∷ b'1' ∷ [])
    ∷ []

sample_lines-rebuilt : build_new_config_text plain wanted 1000 (flat sample_lines) ≡ some rebuilt
unfolding build_new_config_text copy_loop ended_then_append end_line append_loop put_missing
    put_line match_key append_wanted key_value key_line psu_digits has_newline is_unended is_line_of
    line_of after_line
sample_lines-rebuilt = refl

sample_lines-IsLine : All IsLine sample_lines
unfolding has_newline
sample_lines-IsLine = (
  IsLine-decided (b'[' ∷ b'a' ∷ b'l' ∷ b'l' ∷ b']' ∷ []) refl,
  (
    IsLine-decided
        (b'B' ∷ b'O' ∷ b'O' ∷ b'T' ∷ b'_' ∷ b'O' ∷ b'R' ∷ b'D' ∷ b'E' ∷ b'R' ∷ b'=' ∷ b'0' ∷ b'x'
          ∷ b'f' ∷ b'1' ∷ [])
        refl,
    (IsLine-decided (b'A' ∷ b'=' ∷ b'1' ∷ []) refl, tt),
  ),
)

build_new_config_text-Keeps_example : Keeps plain (unmanaged plain sample_lines) rebuilt
build_new_config_text-Keeps_example =
    build_new_config_text-Keeps plain wanted 1000 wanted-IsCanonical sample_lines rebuilt
      sample_lines-IsLine sample_lines-rebuilt
