-- ===== src/Node/Bindings.antt =====
-- Which endpoints a witness identity's ledger vouches for: crates/mabel-node/src/bindings.rs. The
-- file of one identity is absent or a record.
pub mod History
pub mod Verified
use mabel.Base.{
  ℕ, Bool, true, false, not, ◌&&◌, ◌||◌, Option, none, some, List, [], ◌∷◌, ◌++◌, map, ◌==◌, ltb,
  if◌then◌else◌,
}

pub data Binding : Type 0 where
  verified hinted : Binding

pub record BoundEndpoint : Type 0 where
  pub endpoint : ℕ
  pub head_seq : ℕ
  pub head_event : ℕ
  pub source : ℕ
  pub observed_ms : ℕ

pub record Bindings : Type 0 where
  pub identity : ℕ
  pub endpoints : List BoundEndpoint

pub record Observation : Type 0 where
  pub identity : ℕ
  pub head_seq : ℕ
  pub head_event : ℕ
  pub endpoints : List ℕ
  pub source : ℕ
  pub observed_ms : ℕ
  pub may_bind : Bool

pub data Recorded : Type 0 where
  replaced : Bindings → Recorded
  refreshed : Bindings → Recorded
  ignored cleared nothing : Recorded

unfoldable pub names : (endpoint : ℕ) → List BoundEndpoint → Bool
names endpoint [] = false
names endpoint (bound ∷ bounds) = bound.endpoint == endpoint || names endpoint bounds

unfoldable pub binding : (endpoint : ℕ) → Bindings → Binding
unfolding names
binding endpoint b = if names endpoint b.endpoints then Binding.verified else Binding.hinted

-- The larger of a number and a maximum that may be missing.
abbrev pub max_with : ℕ → Option ℕ → ℕ
max_with n none = n
max_with n (some m) = if ltb m n then n else m

unfoldable pub max_seq : List BoundEndpoint → Option ℕ
max_seq [] = none
max_seq (bound ∷ bounds) = some (max_with bound.head_seq (max_seq bounds))

-- `Bindings::head_seq`.
unfoldable pub recorded_seq : Bindings → Option ℕ
unfolding max_seq
recorded_seq b = max_seq b.endpoints

-- `filter(|endpoint| *endpoint != self.source)`.
unfoldable pub others : (source : ℕ) → List ℕ → List ℕ
others source [] = []
others source (endpoint ∷ endpoints) =
    let rest = others source endpoints in if endpoint == source then rest else endpoint ∷ rest

unfoldable pub vouched : Observation → List ℕ
unfolding others
vouched o = if o.may_bind then others o.source o.endpoints else []

unfoldable pub entry : Observation → (endpoint : ℕ) → BoundEndpoint
entry o endpoint = record {
  endpoint = endpoint;
  head_seq = o.head_seq;
  head_event = o.head_event;
  source = o.source;
  observed_ms = o.observed_ms;
}

-- `Recorded::Replaced` of what the observation vouches for.
unfoldable pub replaced_by : Observation → Bindings
unfolding entry vouched
replaced_by o = record { identity = o.identity; endpoints = map (entry o) (vouched o) }

unfoldable pub replaced_if_any : Observation → List ℕ → Recorded
unfolding replaced_by
replaced_if_any o [] = Recorded.nothing
replaced_if_any o (_ ∷ _) = Recorded.replaced (replaced_by o)

-- Whether an entry at the recorded head has another event there.
unfoldable pub divergent : (recorded : ℕ) → Observation → List BoundEndpoint → Bool
divergent recorded o [] = false
divergent recorded o (bound ∷ bounds) =
    bound.head_seq == recorded && not (bound.head_event == o.head_event)
    || divergent recorded o bounds

-- The first entry of the endpoint is overwritten, or one is pushed.
unfoldable pub put : BoundEndpoint → List BoundEndpoint → List BoundEndpoint
put new [] = new ∷ []
put new (bound ∷ bounds) =
    let rest = put new bounds in
    if bound.endpoint == new.endpoint then new ∷ bounds else bound ∷ rest

unfoldable pub merge : Observation → List ℕ → List BoundEndpoint → List BoundEndpoint
unfolding put entry
merge o [] bounds = bounds
merge o (endpoint ∷ endpoints) bounds = merge o endpoints (put (entry o endpoint) bounds)

unfoldable pub refreshed_if_any : Observation → List ℕ → Bindings → Recorded
unfolding merge
refreshed_if_any o [] b = Recorded.nothing
refreshed_if_any o (endpoint ∷ endpoints) b =
    Recorded.refreshed (record b { endpoints = merge o (endpoint ∷ endpoints) b.endpoints })

-- `apply` on a record with the head seq that its entries derive from.
unfoldable pub apply_at : Option ℕ → Observation → Bindings → Recorded
unfolding replaced_if_any vouched replaced_by divergent refreshed_if_any
apply_at none o b = replaced_if_any o (vouched o)
apply_at (some recorded) o b =
    if ltb o.head_seq recorded
    then Recorded.ignored
    else if ltb recorded o.head_seq
    then Recorded.replaced (replaced_by o)
    else if divergent recorded o b.endpoints
    then Recorded.cleared
    else refreshed_if_any o (vouched o) b

abbrev pub apply_to : Option Bindings → Observation → Recorded
apply_to none o = replaced_if_any o (vouched o)
apply_to (some b) o = apply_at (recorded_seq b) o b

unfoldable pub apply : Option Bindings → Observation → Recorded
unfolding apply_at recorded_seq replaced_if_any vouched
apply existing o = if o.may_bind then apply_to existing o else Recorded.nothing

-- What an outcome leaves of the file.
unfoldable pub store : Option Bindings → Recorded → Option Bindings
store existing (Recorded.replaced b) = some b
store existing (Recorded.refreshed b) = some b
store existing Recorded.cleared = none
store existing Recorded.ignored = existing
store existing Recorded.nothing = existing

-- `record`: the outcome, and the file behind it.
unfoldable pub record_in : Option Bindings → Observation → Recorded × Option Bindings
unfolding apply store
record_in existing o = let outcome = apply existing o in (outcome, store existing outcome)
