-- ===== src/Server/Headers.antt =====
-- The headers that a conversion asks the upstream server with.
use openwrt_sub_converter.Common.{
  ℕ, ◌+◌, ◌≤◌, List, [], ◌∷◌, ◌++◌, Option, some, ◌≡◌, Bytes, Lacks, codes, c_str,
}
use openwrt_sub_converter.Model.Json.{JsonC}

-- A spelling of a lower-case word in which any letters may be capitals.
pub data AnyCase : Bytes → Bytes → Type 0 where
  end : AnyCase [] []
  same : (c : ℕ) (s t : Bytes) → AnyCase s t → AnyCase (c ∷ s) (c ∷ t)
  capital :
      (c : ℕ) (s t : Bytes) → b'A' ≤ c → c ≤ b'Z' → AnyCase s t → AnyCase (c ∷ s) ((c + 32) ∷ t)

-- A text of one line.
abbrev pub IsOneLine : Bytes → Type 0
IsOneLine s = Lacks b'\r' s × Lacks b'\n' s

-- A line of a header that may be passed on: the name ends at the first colon, nothing starts
-- another line, and libcurl does not set a header of the name itself.
pub record IsHeaderLine (line : Bytes) : Type 0 where
  pub name : Bytes
  pub value : Bytes
  pub text : line ≡ name ++ (codes ": " ++ value)
  pub no_colon : Lacks b':' name
  pub one_line : IsOneLine name × IsOneLine value
  pub no_host : ¬ AnyCase name (codes "host")
  pub no_content_length : ¬ AnyCase name (codes "content-length")
  pub no_transfer_encoding : ¬ AnyCase name (codes "transfer-encoding")

module _ (lib : JsonC) where
  -- An entry whose key can be the name of a header and whose text, as a C string, has one line.
  abbrev pub IsCleanEntry : Bytes × Option lib.Json → Type 0
  IsCleanEntry e =
      Lacks b':' e.0
      × IsOneLine e.0
      × ((v : lib.Json) → e.1 ≡ some v → IsOneLine (c_str (lib.get_string v)))
