-- ===== src/Node/Peers.antt =====
-- Where to look for a ledger: `PeerHint` and `Peers` of crates/mabel-node/src/peers.rs. A time is
-- the clock that the caller read.
pub mod Hints
pub mod Tidy
pub mod Pruned
pub mod Runs
use mabel.Base.{
  ℕ, zero, suc, ◌+◌, ◌-◌, ◌*◌, ◌^◌, Bool, true, false, not, ◌&&◌, ◌||◌, Option, none, some, List,
  [], ◌∷◌, ◌++◌, map, ◌==◌, ltb, leb, is_some, if◌then◌else◌,
}
use mabel.Base.Bytes.{length}
use mabel.Base.Map.{Map, get, insert, remove}

abbrev pub max_hints : ℕ
max_hints = 8

abbrev pub hint_max_age_ms : ℕ
hint_max_age_ms = 30 * 24 * 60 * 60 * 1000

abbrev pub max_failures : ℕ
max_failures = 3

pub record PeerHint : Type 0 where
  pub endpoint : ℕ
  pub first_seen_ms : ℕ
  pub last_success_ms : ℕ
  pub failures : ℕ

unfoldable pub served : (endpoint now : ℕ) → PeerHint
served endpoint now = record {
  endpoint = endpoint;
  first_seen_ms = now;
  last_success_ms = now;
  failures = 0;
}

unfoldable pub undated : (endpoint : ℕ) → PeerHint
undated endpoint = record {
  endpoint = endpoint;
  first_seen_ms = 0;
  last_success_ms = 0;
  failures = 0;
}

unfoldable pub stamp : PeerHint → ℕ
stamp hint =
    if ltb hint.first_seen_ms hint.last_success_ms then hint.last_success_ms else hint.first_seen_ms

unfoldable pub aged_out : (now : ℕ) → PeerHint → Bool
unfolding stamp
aged_out now hint = if stamp hint == 0 then false else ltb hint_max_age_ms (now - stamp hint)

unfoldable pub live : (now : ℕ) → PeerHint → Bool
unfolding aged_out
live now hint = ltb hint.failures max_failures && not (aged_out now hint)

abbrev pub Peers : Type 0
Peers = Map (List PeerHint)

abbrev pub or_default : Option (List PeerHint) → List PeerHint
or_default none = []
or_default (some hints) = hints

-- `hints.iter().any(|hint| hint.endpoint == endpoint)`.
unfoldable pub names : (endpoint : ℕ) → List PeerHint → Bool
names endpoint [] = false
names endpoint (hint ∷ hints) = hint.endpoint == endpoint || names endpoint hints

unfoldable pub holds : (ledger endpoint : ℕ) → Peers → Bool
unfolding names get
holds ledger endpoint peers = names endpoint (or_default (get ledger peers))

-- The hint of an endpoint that served again.
unfoldable pub refresh : (now : ℕ) → PeerHint → PeerHint
refresh now hint = record hint {
  last_success_ms = now;
  failures = 0;
  first_seen_ms = if hint.first_seen_ms == 0 then now else hint.first_seen_ms;
}

-- `find` of the first hint with this endpoint, refreshed in its place.
unfoldable pub refresh_in : (endpoint now : ℕ) → List PeerHint → List PeerHint
unfolding refresh
refresh_in endpoint now [] = []
refresh_in endpoint now (hint ∷ hints) =
    let rest = refresh_in endpoint now hints in
    if hint.endpoint == endpoint then refresh now hint ∷ hints else hint ∷ rest

-- `(last_success_ms, first_seen_ms)` of the one below that of the other.
unfoldable pub older : PeerHint → PeerHint → Bool
older a b =
    ltb a.last_success_ms b.last_success_ms
    || a.last_success_ms == b.last_success_ms && ltb a.first_seen_ms b.first_seen_ms

-- `min_by_key`, where `best` at `at` is the least so far and the next hint stands at `index`.
unfoldable pub oldest_from : (at : ℕ) → (best : PeerHint) → (index : ℕ) → List PeerHint → ℕ
unfolding older
oldest_from at best index [] = at
oldest_from at best index (hint ∷ hints) =
    let kept = oldest_from at best (suc index) hints in
    let replaced = oldest_from index hint (suc index) hints in
    if older hint best then replaced else kept

unfoldable pub oldest : List PeerHint → Option ℕ
unfolding oldest_from
oldest [] = none
oldest (hint ∷ hints) = some (oldest_from 0 hint 1 hints)

unfoldable pub remove_at : ℕ → List PeerHint → List PeerHint
remove_at n [] = []
remove_at zero (hint ∷ hints) = hints
remove_at (suc n) (hint ∷ hints) = hint ∷ remove_at n hints

abbrev pub remove_oldest : List PeerHint → Option ℕ → List PeerHint
remove_oldest hints none = hints
remove_oldest hints (some n) = remove_at n hints

-- `while hints.len() > MAX_HINTS`, on fuel: a pass removes a hint.
unfoldable pub trim : (fuel : ℕ) → List PeerHint → List PeerHint
unfolding oldest remove_at
trim zero hints = hints
trim (suc fuel) hints =
    let rest = trim fuel (remove_oldest hints (oldest hints)) in
    if ltb max_hints (length hints) then rest else hints

unfoldable pub record_success : (ledger endpoint now : ℕ) → Peers → Peers
unfolding get insert names refresh_in served trim
record_success ledger endpoint now peers =
    let hints = or_default (get ledger peers) in
    let pushed = hints ++ served endpoint now ∷ [] in
    if names endpoint hints
    then insert ledger (refresh_in endpoint now hints) peers
    else insert ledger (trim (length pushed) pushed) peers

-- `failures.saturating_add(1)` of a `u32`.
abbrev pub one_more : ℕ → ℕ
one_more failures = if leb (2 ^ 32 - 1) failures then 2 ^ 32 - 1 else failures + 1

abbrev pub behind : PeerHint → Option (Bool × List PeerHint) → Option (Bool × List PeerHint)
behind hint none = none
behind hint (some (gone, hints)) = some (gone, hint ∷ hints)

-- The hint at `position`, and whether it goes: none where no hint names the endpoint.
unfoldable pub fail_in : (endpoint : ℕ) → List PeerHint → Option (Bool × List PeerHint)
fail_in endpoint [] = none
fail_in endpoint (hint ∷ hints) =
    let rest = fail_in endpoint hints in
    if hint.endpoint == endpoint
    then if ltb (one_more hint.failures) max_failures
      then some (false, (record hint { failures = one_more hint.failures }) ∷ hints)
      else some (true, hints)
    else behind hint rest

-- What a failure leaves of a ledger's hints in the map.
unfoldable pub put_failed : (ledger : ℕ) → Option (Bool × List PeerHint) → Peers → Bool × Peers
unfolding insert remove
put_failed ledger none peers = (false, peers)
put_failed ledger (some (gone, [])) peers = (gone, remove ledger peers)
put_failed ledger (some (gone, hint ∷ hints)) peers = (gone, insert ledger (hint ∷ hints) peers)

unfoldable pub record_failure : (ledger endpoint : ℕ) → Peers → Bool × Peers
unfolding get fail_in put_failed
record_failure ledger endpoint peers =
    put_failed ledger (fail_in endpoint (or_default (get ledger peers))) peers

unfoldable pub keep : (PeerHint → Bool) → List PeerHint → List PeerHint
keep test [] = []
keep test (hint ∷ hints) = let rest = keep test hints in if test hint then hint ∷ rest else rest

-- A stable sort, the freshest success first.
unfoldable pub place : PeerHint → List PeerHint → List PeerHint
place hint [] = hint ∷ []
place hint (other ∷ hints) =
    let rest = place hint hints in
    if ltb hint.last_success_ms other.last_success_ms then other ∷ rest else hint ∷ other ∷ hints

unfoldable pub freshest_first : List PeerHint → List PeerHint
unfolding place
freshest_first [] = []
freshest_first (hint ∷ hints) = place hint (freshest_first hints)

unfoldable pub hints_at : (ledger now : ℕ) → Peers → List ℕ
unfolding get live keep freshest_first
hints_at ledger now peers =
    map (λ (hint : PeerHint). hint.endpoint)
      (freshest_first (keep (live now) (or_default (get ledger peers))))

abbrev pub put_kept : (ledger : ℕ) → List PeerHint → Peers → Peers
put_kept ledger [] peers = peers
put_kept ledger (hint ∷ hints) peers = (ledger, hint ∷ hints) ∷ peers

-- The maps of `prune`: what `retain` leaves of each ledger, and the ledgers it leaves hints to.
unfoldable pub prune : (now : ℕ) → Peers → Peers
unfolding keep aged_out
prune now [] = []
prune now ((ledger, hints) ∷ peers) =
    put_kept ledger (keep (λ hint. not (aged_out now hint)) hints) (prune now peers)
