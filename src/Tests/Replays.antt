-- ===== src/Tests/Replays.antt =====
-- Past requests replayed against a downshift, and the active configuration as the store answers.
use mathlib.Core.List.Memᴰ
use burnban.Prelude.{
  ◌≡◌, ◌⊎◌, inl, inr, refl, sym, ap, ◌∙◌, String, false, Option, none, some, List, [], ◌∷◌, Memᴰ,
  map, str_eq, if◌then◌else◌, arith,
}
use burnban.Prelude.Int.{pos}
use burnban.Float
use burnban.Downshift.Config.{Compiled, rule_of}
use burnban.Downshift.Features.{Features}
use burnban.Downshift.Decide.{downshift, Input, decide}
use burnban.Downshift.History.{Row, Decoders, parse_feature_receipt, identity_of}
use burnban.Downshift.TargetCost.{invalid_cost}
use burnban.Downshift.Simulate.{new_report, counted, outcome, add_all, route_of, model_of}
use burnban.Downshift.Valid.Choice.{Pulls}
use burnban.Downshift.Simulate.Counts.{IsBalanced, Adds, add_all_counts}
use burnban.Downshift.Simulate.Agrees.{IsLive, IsTargetCost, counted-downshift}
use burnban.Downshift.Runtime.{
  Answer, no_document, document, DocumentRecord, refused, inactive, config as serves, run,
  new_runtime,
}
use burnban.Downshift.Runtime.Fresh.{AreStable, fresh, run-fresh}
use burnban.Tests.Data.{features, config, downshifts, busy, smaller}
use burnban.Tests.Prices.{go, base}

abbrev past : Features
past =
    let f = features in record f { version = "burnban.features/v1"; operation = "chat_completions" }

-- A receipt that decodes to the one summary, and no other text that does.
abbrev decode : Decoders
decode = record {
  features = λ raw. if str_eq raw "receipt" then some past else none;
  confidences = λ raw. none;
}

abbrev done : Row
done = record {
  ts = pos 0;
  provider = "main";
  model = "large";
  requested_provider = "";
  requested_model = "";
  usage = record { input = pos 1000; output = pos 100; cache_read = pos 0; cache_write = pos 0 };
  cache_write_1h_tokens = pos 0;
  cost_usd = Float.of_int 1;
  pricing_state = "priced";
  fee_unpriced = false;
  service_tier = "";
  inference_geo = "";
  identity_tenant = "t";
  principal = "p";
  service_account = "";
  project = "";
  cost_center = "";
  identity_confidence = "authenticated";
  policy_context = "";
  downshift_action = "";
  downshift_features = "receipt";
}

-- The live request like it.
abbrev busy' : Input
busy' = let i = busy in record i { features = past }

abbrev unseen : Row
unseen = let r = done in record r { downshift_features = "" }

abbrev foreign : Row
foreign = let r = done in record r { provider = "elsewhere" }

abbrev rows : List Row
rows = done ∷ unseen ∷ foreign ∷ []

-- 1000 and 100 tokens at 2 and 4 dollars a million.
abbrev target_cost : Float.Float64
unfolding Float.of_ratio
target_cost = Float.of_ratio 24 10000

done_counted : outcome go decode downshifts base done ≡ counted target_cost
unfolding outcome target_cost Float.of_ratio
done_counted = refl

has_rule : rule_of config.rules (route_of done) (model_of done) ≡ some smaller
unfolding rule_of route_of model_of
has_rule = refl

has_receipt : parse_feature_receipt decode done.downshift_features ≡ some past
unfolding parse_feature_receipt
has_receipt = refl

live : IsLive decode done smaller past busy'
unfolding route_of model_of identity_of
live = record {
  route = refl;
  model = refl;
  dialect = refl;
  exists = refl;
  target = refl;
  identity = refl;
  same = refl;
}

pulls : Pulls config busy'
unfolding Float.of_int Float.le
pulls = inr (refl, refl)

counted-downshift_example :
    ((decide (some downshifts) busy').action ≡ downshift)
    × ((decide (some downshifts) busy').target_route ≡ "main")
    × ((decide (some downshifts) busy').target_model ≡ "small")
    × (invalid_cost target_cost ≡ false)
    × (invalid_cost done.cost_usd ≡ false)
    × IsTargetCost go decode base smaller done target_cost
counted-downshift_example =
    counted-downshift go decode downshifts base done smaller past busy' target_cost has_rule
      has_receipt done_counted live pulls refl

add_all_counts_example :
    IsBalanced (add_all go decode downshifts base new_report rows)
    × Adds new_report
        (add_all go decode downshifts base new_report rows)
        (map (outcome go decode downshifts base) rows)
add_all_counts_example = add_all_counts go decode downshifts base rows (omega arith)

-- A document, and another revision of it that does not parse.
abbrev revision : DocumentRecord
revision = record {
  id = pos 1;
  api_version = "burnban.downshift/v1";
  revision = pos 1;
  digest = "c";
  mode = "warn_then_downshift";
  document_json = "good";
}

abbrev broken : DocumentRecord
broken = let r = revision in record r { id = pos 2; document_json = "bad" }

abbrev parse : String → Option Compiled
parse raw = if str_eq raw "good" then some downshifts else none

abbrev answers : List Answer
answers = document revision ∷ document broken ∷ document revision ∷ no_document ∷ []

answered :
    run parse new_runtime answers ≡ serves downshifts ∷ refused ∷ serves downshifts ∷ inactive ∷ []
unfolding run
answered = refl

listed_ids : (r : DocumentRecord) → Memᴰ (document r) answers → (r ≡ revision) ⊎ (r ≡ broken)
listed_ids r (Memᴰ.head e) = inl (cc)
listed_ids r (Memᴰ.tail (Memᴰ.head e)) = inr (cc)
listed_ids r (Memᴰ.tail (Memᴰ.tail (Memᴰ.head e))) = inl (cc)
listed_ids r (Memᴰ.tail (Memᴰ.tail (Memᴰ.tail (Memᴰ.head e)))) = cc
listed_ids r (Memᴰ.tail (Memᴰ.tail (Memᴰ.tail (Memᴰ.tail m)))) = absurd (Memᴰ.not-nil m)

stable : AreStable answers
stable r s m n e = elim (listed_ids r m) [
  | inl x ↦ elim (listed_ids s n) [
    | inl y ↦ x ∙ sym y
    | inr y ↦ absurd (other_ids (sym (ap (λ q. q.id) x) ∙ e ∙ ap (λ q. q.id) y))
  ]
  | inr x ↦ elim (listed_ids s n) [
    | inl y ↦ absurd (other_ids (sym (ap (λ q. q.id) y) ∙ sym e ∙ ap (λ q. q.id) x))
    | inr y ↦ x ∙ sym y
  ]
]
  where
    other_ids : revision.id ≡ broken.id → ⊥
    other_ids h = ground arith

run-fresh_example : run parse new_runtime answers ≡ map (fresh parse) answers
run-fresh_example = run-fresh parse answers stable
