-- ===== src/Yaml/Emit.antt =====
-- The lines of the document, sub-converter/src/yaml_emit.c. A `char *` value is optional.
use openwrt_sub_converter.Common.{
  ℕ, zero, suc, Bool, true, false, List, [], ◌∷◌, Option, none, some, Bytes, codes, if◌then◌else◌,
}
use openwrt_sub_converter.Buffer.{Buffer, append_bytes, append_char}
use openwrt_sub_converter.Libc.{ℤ, format_int}
use openwrt_sub_converter.Yaml.Quote.{yaml_quote}

emit_indent : Buffer → ℕ → Buffer
emit_indent out zero = out
emit_indent out (suc n) = emit_indent (append_char out b' ') n

-- What stands in front of the line break.
emit_value : Buffer → Option Bytes → Buffer
emit_value out none = append_char out b':'
emit_value out (some v) = yaml_quote v (append_bytes out (codes ": "))

unfoldable pub yaml_emit_kv : Buffer → ℕ → Bytes → Option Bytes → Buffer
unfolding emit_indent emit_value
yaml_emit_kv out indent key value =
    append_char (emit_value (append_bytes (emit_indent out indent) key) value) b'\n'

unfoldable pub yaml_emit_kv_int : Buffer → ℕ → Bytes → ℤ → Buffer
unfolding emit_indent
yaml_emit_kv_int out indent key value =
    let out = append_bytes (append_bytes (emit_indent out indent) key) (codes ": ") in
    append_char (append_bytes out (format_int value)) b'\n'

unfoldable pub yaml_emit_kv_bool : Buffer → ℕ → Bytes → Bool → Buffer
unfolding emit_indent
yaml_emit_kv_bool out indent key value =
    append_bytes (append_bytes (emit_indent out indent) key)
      (if value then codes ": true\n" else codes ": false\n")

unfoldable pub yaml_emit_dash : Buffer → ℕ → Bytes → Buffer
unfolding emit_indent
yaml_emit_dash out indent value =
    append_char (yaml_quote value (append_bytes (emit_indent out indent) (codes "- "))) b'\n'

unfoldable pub yaml_emit_dash_kv : Buffer → ℕ → Bytes → Bytes → Buffer
unfolding emit_indent
yaml_emit_dash_kv out indent key value =
    let out = append_bytes (append_bytes (emit_indent out indent) (codes "- ")) key in
    append_char (yaml_quote value (append_bytes out (codes ": "))) b'\n'

unfoldable pub yaml_emit_dash_kv_open : Buffer → ℕ → Bytes → Buffer
unfolding emit_indent
yaml_emit_dash_kv_open out indent key =
    append_bytes (append_bytes (append_bytes (emit_indent out indent) (codes "- ")) key)
      (codes ":\n")

-- The loop of `yaml_emit_flow_list`; the flag is `i > 0`.
emit_items : Bool → Buffer → List Bytes → Buffer
emit_items later out [] = out
emit_items later out (item ∷ items) =
    emit_items true (yaml_quote item (if later then append_bytes out (codes ", ") else out)) items

unfoldable pub yaml_emit_flow_list : Buffer → List Bytes → Buffer
unfolding emit_items
yaml_emit_flow_list out items =
    append_bytes (emit_items false (append_char out b'[') items) (codes "]\n")
