-- ===== src/Tests/Views.antt =====
-- The views of a small store: an occurrent with an alias, and a claim that refers to an absent one.
use causalontology.Prelude.{String, [], ◌∷◌, false, true, some, ◌≡◌, ◌≢◌, ◌↔◌, refl, find, eq_iff}
use causalontology.Sets.{contains_string}
use causalontology.Json.{str, obj, arr, cons, nil, Fields, field, end}
use causalontology.Store.State.{Store}
use causalontology.Store.Gaps.{refined}
use causalontology.Store.Gaps.Closed.{IsClosed, refined_iff}
use causalontology.Store.Gaps.Finds.{ShowsGaps, gaps_lem}
use causalontology.Store.Words.{Words}
use causalontology.Store.Views.{resolve}
use causalontology.Store.Views.Buckets.{ShowsObject, get_view_lem}
use causalontology.Store.Views.Resolves.{ResolvesTo, resolve_lem}
use causalontology.Tests.Doubles.{floats}

-- Texts are in lower case, and of one word.
abbrev words : Words
words = record { to_lower = λ s. s; fields = λ s. s ∷ []; print = λ v. "" }

abbrev rain : Fields
rain = field "type" (str "occurrent") (field "label" (str "rain") end)

abbrev claim : Fields
claim = field "type" (str "causal_relation_object") (
    field "causes" (arr (cons (str "rain:1") (cons (str "sun:1") nil)))
      (field "refines" (str "claim:2") end))

abbrev parent : Fields
parent = field "type" (str "causal_relation_object") (field "id" (str "claim:2") end)

abbrev alias : Fields
alias = field "type" (str "enrichment") (
    field "about" (str "rain:1") (
      field "field" (str "aliases")
        (field "entry" (obj (field "text" (str "shower") end)) (field "source" (str "ann") end))))

abbrev store : Store
store = record {
  enforcing = false;
  objects = ("rain:1", rain) ∷ ("claim:1", claim) ∷ ("claim:2", parent) ∷ [];
  object_order = "rain:1" ∷ "claim:1" ∷ "claim:2" ∷ [];
  records = ("alias:1", alias) ∷ [];
  record_order = "alias:1" ∷ [];
  quarantine = [];
}

gaps_lem_example : ShowsGaps floats store "dangling_reference"
gaps_lem_example = gaps_lem floats store "dangling_reference"

refined_iff_example :
    (contains_string (refined floats store) "claim:2" ≡ true) ↔ IsClosed floats store "claim:2"
refined_iff_example = refined_iff floats store "claim:2"

rain_stored : find store.objects "rain:1" ≡ some rain
unfolding find
rain_stored = refl

not_raw : ◌≢◌ {A = String} "default" "raw"
not_raw e = let t = (eq_iff "default" "raw").1 e in cc

get_view_lem_example : ShowsObject floats words store "rain:1" "default" rain
get_view_lem_example = get_view_lem floats words store "rain:1" "default" rain rain_stored not_raw

resolve_lem_example : ResolvesTo words store "shower" "" (resolve words store "shower" "")
resolve_lem_example = resolve_lem words store "shower" ""
