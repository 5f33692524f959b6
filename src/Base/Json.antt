-- ===== src/Base/Json.antt =====
-- What the code uses of the JSON library (nlohmann::json), which is not part of the repository.
use edbc.Base.Bytes.{Bytes, IsText}
use mathlib.Core.Path.{◌≡◌}
use mathlib.Core.Option.{Option, some}

pub record JsonLib : Type 1 where
  pub Json : Type 0
  -- `j.dump()`
  pub dump : Json → Bytes
  -- `json::parse(s)`; `none` is an exception.
  pub parse : Bytes → Option Json
  -- `j.at("_id")`; `none` where `j.contains("_id")` is false.
  pub id_field : Json → Option Json
  -- What is dumped is parsed back, and a dump is text: control characters are escaped.
  pub parse-dump : (j : Json) → parse (dump j) ≡ some j
  pub dump-IsText : (j : Json) → IsText (dump j)
