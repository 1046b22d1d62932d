-- ===== src/Model/Json.antt =====
-- sub-converter/src/jsonx.c, less the functions that build JSON values. The library json-c is not part of
-- the repository: its parser and its accessors are the fields of the record `JsonC`, and the
-- functions of jsonx.c are written over them. A pointer to a JSON value is `none` for NULL.
use openwrt_sub_converter.Common.{
  List, Outcome, done, failed, true, get_elem?, ℕ, ◌-◌, ◌^◌, Bool, false, not, ◌||◌, [], ◌∷◌, ◌++◌,
  Option, none, some, Bytes, length, c_str, if◌then◌else◌, ◌==◌, ltb,
}
use openwrt_sub_converter.Buffer.{Buffer, append_bytes}
use openwrt_sub_converter.Libc.{ℤ}

-- enum json_type
pub data JsonType : Type 0 where
  null boolean double int object array string : JsonType

-- What `json_tokener_parse_ex` leaves: the value, whether the error is `json_tokener_success`,
-- and the end of the text that was read.
pub record Tokens (Json : Type 0) : Type 0 where
  pub value : Option Json
  pub success : Bool
  pub parse_end : ℕ

-- `entries` are the keys and values of an object in the order of `json_object_object_foreach`.
pub record JsonC : Type 1 where
  pub Json : Type 0
  pub parse_ex : Bytes → Tokens Json
  pub is_type : Json → JsonType → Bool
  pub get_ex : Json → Bytes → Option Json
  pub get_int64 : Json → ℤ
  pub get_string : Json → Bytes
  pub get_boolean : Json → Bool
  pub array_length : Json → ℕ
  pub array_get_idx : Json → ℕ → Option Json
  pub entries : Json → List (Bytes × Option Json)
  pub to_json_string : Json → Option Bytes

module _ (lib : JsonC) where
  open lib use {
    Json, parse_ex, is_type, get_ex, get_int64, get_string, get_boolean, array_length,
    array_get_idx, entries, to_json_string,
  }

  -- The value is NULL for the text `null` too, which is refused like an error.
  unfoldable pub jsonx_parse : Option Bytes → Option Json
  jsonx_parse none = none
  jsonx_parse (some s) =
      let r = parse_ex (s ++ 0 ∷ []) in
      if ltb (2 ^ 31 - 1) (length s)
      then none
      else if not r.success || not (r.parse_end == length s)
      then none
      else r.value

  unfoldable pub jsonx_is_string : Option Json → Bool
  jsonx_is_string none = false
  jsonx_is_string (some v) = is_type v JsonType.string

  unfoldable pub jsonx_is_int : Option Json → Bool
  jsonx_is_int none = false
  jsonx_is_int (some v) = is_type v JsonType.int

  unfoldable pub jsonx_obj_get : Json → Bytes → Option Json
  jsonx_obj_get obj key = get_ex obj key

  -- A C string ends at its first NUL.
  unfoldable pub jsonx_str : Json → Bytes
  jsonx_str v = c_str (get_string v)

  unfoldable pub jsonx_int : Json → ℤ
  jsonx_int v = get_int64 v

  unfoldable pub string_of : Option Json → Option Bytes
  unfolding jsonx_str
  string_of none = none
  string_of (some v) = if is_type v JsonType.string then some (jsonx_str v) else none

  -- `none` is the -1 of the source.
  unfoldable pub jsonx_get_string : Json → Bytes → Option Bytes
  unfolding string_of
  jsonx_get_string obj key = string_of (get_ex obj key)

  unfoldable pub jsonx_is_object : Option Json → Bool
  jsonx_is_object none = false
  jsonx_is_object (some v) = is_type v JsonType.object

  unfoldable pub jsonx_is_array : Option Json → Bool
  jsonx_is_array none = false
  jsonx_is_array (some v) = is_type v JsonType.array

  unfoldable pub jsonx_is_bool : Option Json → Bool
  jsonx_is_bool none = false
  jsonx_is_bool (some v) = is_type v JsonType.boolean

  -- NULL is the JSON value `null` of json-c.
  unfoldable pub jsonx_is_null : Option Json → Bool
  jsonx_is_null none = true
  jsonx_is_null (some v) = is_type v JsonType.null

  unfoldable pub jsonx_bool : Option Json → Bool
  jsonx_bool none = false
  jsonx_bool (some v) = get_boolean v

  -- An index below 0 gives NULL too; the callers count from 0.
  unfoldable pub jsonx_arr_get : Option Json → ℕ → Option Json
  jsonx_arr_get none index = none
  jsonx_arr_get (some v) index = if is_type v JsonType.array then array_get_idx v index else none

  unfoldable pub jsonx_arr_len : Option Json → ℕ
  jsonx_arr_len none = 0
  jsonx_arr_len (some v) = if is_type v JsonType.array then array_length v else 0

  unfoldable pub int_of : Option Json → Option ℤ
  int_of none = none
  int_of (some v) = if is_type v JsonType.int then some (get_int64 v) else none

  unfoldable pub jsonx_get_int : Json → Bytes → Option ℤ
  unfolding int_of
  jsonx_get_int obj key = int_of (get_ex obj key)

  unfoldable pub bool_of : Option Json → Option Bool
  bool_of none = none
  bool_of (some v) = if is_type v JsonType.boolean then some (get_boolean v) else none

  unfoldable pub jsonx_get_bool : Json → Bytes → Option Bool
  unfolding bool_of
  jsonx_get_bool obj key = bool_of (get_ex obj key)

  unfoldable pub object_of : Option Json → Option Json
  object_of none = none
  object_of (some v) = if is_type v JsonType.object then some v else none

  unfoldable pub jsonx_get_obj : Json → Bytes → Option Json
  unfolding object_of
  jsonx_get_obj obj key = object_of (get_ex obj key)

  -- The entry at an index, and `none` for -1 behind the last one; the caller's index grows by one.
  unfoldable pub jsonx_obj_entries : Option Json → ℕ → Option (Bytes × Option Json)
  jsonx_obj_entries none index = none
  jsonx_obj_entries (some v) index =
      if is_type v JsonType.object then get_elem? (entries v) index else none

  unfoldable pub append_text : Option Bytes → Buffer → Outcome Buffer
  append_text none out = failed
  append_text (some text) out = done (append_bytes out (c_str text))

  unfoldable pub jsonx_serialize : Option Json → Buffer → Outcome Buffer
  unfolding append_text
  jsonx_serialize none out = failed
  jsonx_serialize (some v) out = append_text (to_json_string v) out
