-- ===== src/Maps/Clicks.antt =====
-- The signals of clicks in backend/src/services/maps.service.ts: the scores of all places are asked
-- for in one transaction of Redis, and taken from its answers by their index. `zscore` is the answer
-- for a key and a place, 0 where there is none.
use hop_drop.Common.{
  sum_of, sym, false, ◌≡◌, refl, ap, ◌∙◌, arith, drop, zero, suc, ◌+◌, none, some, ◌∷◌, ◌++◌, map,
  length, [], ltb, if◌then◌else◌, List, Option, String, ℕ,
}
use mathlib.Core.Path.{ap₂}
use hop_drop.Accounts.Text.{text_length}

pub data SearchActor : Type 0 where
  sender carrier : SearchActor

pub data SearchField : Type 0 where
  origin destination : SearchField

-- The sorted sets of clicks, of a region each.
pub data ClickKey : Type 0 where
  global_clicks : ClickKey
  context_clicks : Option SearchActor → Option SearchField → ClickKey
  query_clicks : String → ClickKey

-- `contextClickKeys`, without repetitions
unfoldable pub context_click_keys : Option SearchActor → Option SearchField → List ClickKey
context_click_keys none none = context_clicks none none ∷ []
context_click_keys (some a) none = context_clicks none none ∷ context_clicks (some a) none ∷ []
context_click_keys none (some f) = context_clicks none none ∷ context_clicks none (some f) ∷ []
context_click_keys (some a) (some f) =
    context_clicks none none
    ∷ context_clicks (some a) none
    ∷ context_clicks none (some f)
    ∷ context_clicks (some a) (some f)
    ∷ []

pub record ClickSignals : Type 0 where
  pub global_score : ℕ
  pub context_score : ℕ
  pub query_score : ℕ

-- `Number(responses[index]?.[1] || 0)`
abbrev pub answer_at : ℕ → List ℕ → ℕ
answer_at n [] = 0
answer_at zero (x ∷ xs) = x
answer_at (suc n) (x ∷ xs) = answer_at n xs

-- The inner loop: the sum of the answers of the contexts, from an index on.
abbrev pub context_sum : ℕ → ℕ → List ℕ → ℕ
context_sum zero index responses = 0
context_sum (suc n) index responses =
    answer_at index responses + context_sum n (index + 1) responses

-- The loop that reads the answers, for `n` contexts.
unfoldable pub read_signals : ℕ → ℕ → List ℕ → List String → List (String × ClickSignals)
read_signals n index responses [] = []
read_signals n index responses (place ∷ places) =
    (
      place,
      record {
        global_score = answer_at index responses;
        context_score = context_sum n (index + 1) responses;
        query_score = answer_at (index + 1 + n) responses;
      },
    )
    ∷ read_signals n (index + 1 + n + 1) responses places

module _ (zscore : ClickKey → String → ℕ) (contexts : List ClickKey) (query : String) where
  -- The commands of the transaction with their answers.
  unfoldable pub pipeline_answers : List String → List ℕ
  pipeline_answers [] = []
  pipeline_answers (place ∷ places) =
      zscore global_clicks place ∷ map (λ key. zscore key place) contexts
      ++ zscore (query_clicks query) place ∷ pipeline_answers places

-- `loadClickSignals`, for a query of some length
unfoldable pub load_click_signals :
    (ClickKey → String → ℕ)
    → Option SearchActor
    → Option SearchField
    → String
    → List String
    → List (String × ClickSignals)
unfolding context_click_keys pipeline_answers read_signals
load_click_signals zscore actor field query places =
    let contexts = context_click_keys actor field in
    if ltb (text_length query) 2
    then []
    else read_signals (length contexts) 0 (pipeline_answers zscore contexts query places) places

drop_nil : (n : ℕ) → drop {A = ℕ} n [] ≡ []
drop_nil zero = refl
drop_nil (suc n) = refl

drop-add : (m n : ℕ) (xs : List ℕ) → drop (m + n) xs ≡ drop n (drop m xs)
drop-add zero n xs = ap (λ k. drop k xs) (omega arith)
drop-add (suc m) n [] = drop_nil (suc m + n) ∙ sym (drop_nil n)
drop-add (suc m) n (x ∷ xs) =
    let shift : suc m + n ≡ suc (m + n) = omega arith in
    ap (λ k. drop k (x ∷ xs)) shift ∙ drop-add m n xs

answer_at-drop : (n : ℕ) (xs : List ℕ) → answer_at n xs ≡ answer_at 0 (drop n xs)
answer_at-drop zero [] = refl
answer_at-drop zero (x ∷ xs) = refl
answer_at-drop (suc n) [] = refl
answer_at-drop (suc n) (x ∷ xs) = answer_at-drop n xs

-- The answers from an index on start with those to some keys, and go on with the others.
module _ (f : ClickKey → ℕ) (responses more : List ℕ) where
  context_sum-sum :
      (cs : List ClickKey) (index : ℕ)
      → drop index responses ≡ map f cs ++ more
      → (context_sum (length cs) index responses ≡ sum_of f cs)
        × (drop (index + length cs) responses ≡ more)
  context_sum-sum [] index h = (refl, ap (λ k. drop k responses) (omega arith) ∙ h)
  context_sum-sum (c ∷ cs) index h =
      let next : drop (index + 1) responses ≡ map f cs ++ more =
        drop-add index 1 responses ∙ ap (drop 1) h in
      let (sums, left) = context_sum-sum cs (index + 1) next in
      (
        ap₂ ◌+◌ (answer_at-drop index responses ∙ ap (answer_at 0) h) sums,
        ap (λ k. drop k responses) (omega arith) ∙ left,
      )

module _ (zscore : ClickKey → String → ℕ) (contexts : List ClickKey) (query : String) where
  -- The signals of a place, each asked for by itself.
  abbrev pub signals_of : String → String × ClickSignals
  signals_of place = (
    place,
    record {
      global_score = zscore global_clicks place;
      context_score = sum_of (λ key. zscore key place) contexts;
      query_score = zscore (query_clicks query) place;
    },
  )

  read_signals-signals :
      (responses : List ℕ) (places : List String) (index : ℕ)
      → drop index responses ≡ pipeline_answers zscore contexts query places
      → read_signals (length contexts) index responses places ≡ map signals_of places
  unfolding read_signals pipeline_answers
  read_signals-signals responses [] index h = refl
  read_signals-signals responses (place ∷ places) index h =
      let f : ClickKey → ℕ = λ key. zscore key place in
      let more =
        zscore (query_clicks query) place ∷ pipeline_answers zscore contexts query places in
      let next : drop (index + 1) responses ≡ map f contexts ++ more =
        drop-add index 1 responses ∙ ap (drop 1) h in
      let (sums, left) = context_sum-sum f responses more contexts (index + 1) next in
      let last = index + 1 + length contexts in
      let ih =
        read_signals-signals responses places (last + 1)
          (drop-add last 1 responses ∙ ap (drop 1) left) in
      let global = answer_at-drop index responses ∙ ap (answer_at 0) h in
      let own = answer_at-drop last responses ∙ ap (answer_at 0) left in
      rw (global, sums, own, ih) refl

-- The answers are taken apart rightly: every place gets its own clicks, those of the contexts added
-- up, whichever places and contexts there are.
pub load_click_signals_lem :
    (zscore : ClickKey → String → ℕ) (actor : Option SearchActor) (field : Option SearchField)
    (query : String) (places : List String)
    → ltb (text_length query) 2 ≡ false
    → load_click_signals zscore actor field query places
      ≡ map (signals_of zscore (context_click_keys actor field) query) places
unfolding load_click_signals
load_click_signals_lem zscore actor field query places long =
    rw long (read_signals-signals zscore (context_click_keys actor field) query _ places 0 refl)
