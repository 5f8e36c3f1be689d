-- ===== src/Json/Tests.antt =====
-- Texts of dicts.
use mathlib.Core.Option
use marcel_arch.Prelude.{true, String, ◌≡◌, ◌↔◌, refl}
use marcel_arch.Prelude.Int.{negsuc}
use marcel_arch.Value.{
  Value, null, bool, int, float, str, list, dict, nil, cons, Fields, end, field, get,
}
use marcel_arch.Json.{canonical_json, sort_value, sort_fields}
use marcel_arch.Json.Read.{is_plain}
use marcel_arch.Json.Texts.{digit_value}
use marcel_arch.Json.Canonical.{read_json, read_json-canonical_json}
use marcel_arch.Json.Order.{IsReordered, canonical_json_iff}

abbrev payload : Fields
payload =
    field "x\n" (list (cons (int (negsuc 106)) (cons (float "1.5e-07") (cons null nil))))
      (field "name" (str "a\"b") end)

abbrev swapped : Fields
swapped =
    field "name" (str "a\"b")
      (field "x\n" (list (cons (int (negsuc 106)) (cons (float "1.5e-07") (cons null nil)))) end)

payload_text : canonical_json payload ≡ "{\"name\":\"a\\\"b\",\"x\\n\":[-107,1.5e-07,null]}"
unfolding canonical_json
payload_text = refl

reads_back : ◌≡◌ {A = Value × String} (read_json "{\"a\":[true,-12,\"\\n\"]}") (
  dict (field "a" (list (cons (bool true) (cons (int (negsuc 11)) (cons (str "\n") nil)))) end),
  "",
)
unfolding read_json digit_value
reads_back = refl

read_json-canonical_json_example :
    ◌≡◌ {A = Value × String} (read_json (canonical_json payload)) (dict (sort_fields payload), "")
    × ((key : String) → get key (sort_fields payload) ≡ Option.map sort_value (get key payload))
unfolding is_plain
read_json-canonical_json_example = read_json-canonical_json payload refl

canonical_json_iff_example :
    (canonical_json payload ≡ canonical_json swapped) ↔ IsReordered payload swapped
unfolding is_plain
canonical_json_iff_example = canonical_json_iff payload swapped refl refl
