-- ===== src/Converter.antt =====
-- sub-converter/src/converter.c: the table of the converters, and the search by name.
pub mod Find
use openwrt_sub_converter.Common.{
  ℕ, zero, suc, ◌+◌, ◌-◌, ◌*◌, ◌/◌, ◌%◌, ◌^◌, ◌<◌, ◌≤◌, Bool, true, false, not, ◌&&◌, ◌||◌, List,
  [], ◌∷◌, ◌++◌, append_assoc, append-nil, Option, none, some, ◌≡◌, ◌≢◌, ◌↔◌, ◌⊎◌, inl, inr, refl,
  sym, subst, fun_ext, ◌∙◌, ap, arith, Bytes, IsBytes, Lacks, All, All-append, codes, get_or,
  length, get_elem?, take, drop, length-append, length-take, length-drop, take-length-append,
  take-length, drop_behind, take-append-drop, drop-length-append, replicate, length-replicate,
  equal, equal_iff, c_str, c_str-Lacks, Lacks-c_str, is_space, is_digit, if◌then◌else◌, ◌==◌, ltb,
  leb, ==_iff, Bool-cases, Option-cases, all_below, all_below_sound, all_below_sound₂, Outcome,
  done, failed, fault, ◌>>=◌, ◌>>◌, >>=-eq-done, >>=-ne-fault, require, guard, Returns, Ensures,
  Returns->>=, Ensures->>=, Returns-done, Ensures-ne-fault, Returns-Ensures, Ensures-mono,
  Ensures-done, >>=-ne-failed,
}
use openwrt_sub_converter.ConvBase64.{conv_base64_run}
use openwrt_sub_converter.ConvSingbox.{conv_singbox_run}
use openwrt_sub_converter.Model.Json.{JsonC}

-- `run` takes `ctx->data`, which is `none` for NULL.
pub record Converter : Type 0 where
  pub name : Bytes
  pub run : Option Bytes → Outcome Bytes

-- `if (!ctx || !ctx->data || !out_yaml) return -1;`
unfoldable pub with_data : (Bytes → Outcome Bytes) → Option Bytes → Outcome Bytes
with_data run none = failed
with_data run (some data_bytes) = run data_bytes

-- The first converter with the name.
unfoldable pub find_name : List Converter → Bytes → Option Converter
find_name [] name = none
find_name (c ∷ cs) name =
    let further = find_name cs name in if equal c.name name then some c else further

module _ (lib : JsonC) where
  abbrev pub conv_singbox : Converter
  conv_singbox = record { name = codes "singbox"; run = with_data (conv_singbox_run lib) }

  abbrev pub conv_base64 : Converter
  conv_base64 = record { name = codes "base64"; run = with_data (conv_base64_run lib) }

  abbrev pub converter_all : List Converter
  converter_all = conv_singbox ∷ conv_base64 ∷ []

  abbrev pub converter_count : ℕ
  converter_count = length converter_all

  unfoldable pub converter_find : Option Bytes → Option Converter
  unfolding find_name
  converter_find none = none
  converter_find (some name) = find_name converter_all name
