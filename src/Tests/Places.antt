-- ===== src/Tests/Places.antt =====
-- Runs of the search for places of backend/src/services/maps.service.ts.
use hop_drop.Accounts.Text.{trim_end, trim_start, text_length, to_lower}
use hop_drop.Maps.Clicks.{
  context_click_keys, ClickKey, load_click_signals, load_click_signals_lem, SearchActor,
  global_clicks, context_clicks, query_clicks, signals_of,
}
use hop_drop.Maps.Texts.{tokenize_text}
use hop_drop.Common.{ℕ, String, ◌≡◌, refl, none, some, [], ◌∷◌, map}

-- The clicks of a place depend on its name and on the key.
abbrev demo_scores : ClickKey → String → ℕ
demo_scores global_clicks place = text_length place
demo_scores (context_clicks none f) place = 10
demo_scores (context_clicks (some a) f) place = 100
demo_scores (query_clicks q) place = text_length q

pune_goa_read :
    load_click_signals demo_scores (some SearchActor.sender) none "pu" ("Pune" ∷ "Goa" ∷ [])
    ≡ ("Pune", record { global_score = 4; context_score = 110; query_score = 2 })
      ∷ ("Goa", record { global_score = 3; context_score = 110; query_score = 2 })
      ∷ []
unfolding load_click_signals
pune_goa_read = refl

load_click_signals_example :
    load_click_signals demo_scores (some SearchActor.sender) none "pu" ("Pune" ∷ "Goa" ∷ [])
    ≡ map
        (signals_of demo_scores (context_click_keys (some SearchActor.sender) none) "pu")
        ("Pune" ∷ "Goa" ∷ [])
load_click_signals_example =
    load_click_signals_lem demo_scores (some SearchActor.sender) none "pu" ("Pune" ∷ "Goa" ∷ [])
      refl

words_of_a_place : tokenize_text "  New-Delhi, IN 1" ≡ "new" ∷ "delhi" ∷ "in" ∷ []
unfolding tokenize_text to_lower trim_start trim_end
words_of_a_place = refl
