-- ===== src/Conversations/Searching.antt =====
-- ConversationListProvider.tsx: the global search. Each run of the effect has a number; a request on the
-- wire has the number of its run and what it asks for.
use django_channels_chat_rea.Common.{
  ℕ, ◌+◌, ◌≤◌, ltb, nat_eq, Text, text_eq, trim, length, Option, none, some, List, [], ◌∷◌, Bool,
  true, false, not, ◌&&◌, ◌||◌, ◌==◌, ◌≡◌, refl, arith, eq_iff, eq_refl, any, filter, if◌then◌else◌,
}
use django_channels_chat_rea.Conversations.{can_run_global_search_query}

pub record GlobalSearch : Type 0 where
  -- The run of the effect that has not been cancelled, and what it searches for.
  pub current : ℕ
  pub query : Text
  pub timer_set : Bool
  pub in_flight : List (ℕ × Text)
  pub global_loading : Bool
  pub global_results : List ℕ
  -- The search that has been answered last, and shown.
  pub shown_for : Option Text

-- The run of the effect after a change, once the run before is cancelled.
unfoldable pub search_effect : Bool → Text → GlobalSearch → GlobalSearch
search_effect has_user search_query g =
    let next = record g { current = g.current + 1; query = trim search_query } in
    if not has_user
      || ltb (length (trim search_query)) 2
      || not (can_run_global_search_query search_query)
    then record next {
      timer_set = false;
      global_loading = false;
      global_results = [];
      shown_for = none;
    }
    else record next { timer_set = true }

-- The timer goes off, and the request leaves.
unfoldable pub timer_fires : GlobalSearch → GlobalSearch
timer_fires g = if not g.timer_set then g else record g {
  timer_set = false;
  global_loading = true;
  in_flight = (g.current, g.query) ∷ g.in_flight;
}

abbrev pub is_of : ℕ → ℕ × Text → Bool
is_of run request = request.0 == run

-- The request of a run is answered, with `finally`; none is a failure.
unfoldable pub answered : ℕ → Text → Option (List ℕ) → GlobalSearch → GlobalSearch
answered run query results g =
    let rest = record g { in_flight = filter (λ request. not (is_of run request)) g.in_flight } in
    if not (run == g.current) then rest else elim results [
      | none ↦ record rest { global_results = []; shown_for = none; global_loading = false }
      | some found ↦ record rest {
        global_results = found;
        shown_for = some query;
        global_loading = false;
      }
    ]

pub data Event : Type 0 where
  changes : Bool → Text → Event
  fires : Event
  answers : ℕ → Text → Option (List ℕ) → Event

-- Only a request that is on the wire is answered.
unfoldable pub step : Event → GlobalSearch → GlobalSearch
unfolding search_effect timer_fires answered
step (changes has_user search_query) g = search_effect has_user search_query g
step fires g = timer_fires g
step (answers run query results) g =
    if any (λ (r : ℕ × Text). r.0 == run && r.1 == query) g.in_flight
    then answered run query results g
    else g

unfoldable pub run : List Event → GlobalSearch → GlobalSearch
unfolding step
run [] g = g
run (e ∷ es) g = run es (step e g)

-- A request of the current run is for the current query, and no run is later than the current one.
abbrev pub AreOfRuns : ℕ → Text → List (ℕ × Text) → Type 0
AreOfRuns current query [] = Unit
AreOfRuns current query (request ∷ requests) =
    (request.0 ≤ current)
    × ((not (request.0 == current) || request.1 == query) ≡ true)
    × AreOfRuns current query requests

-- What takes the spinner down: the timer with the request that it sends, or the answer of the current run.
pub record IsWatched (g : GlobalSearch) : Type 0 where
  pub requests : AreOfRuns g.current g.query g.in_flight
  pub spinner : (not g.global_loading || g.timer_set || any (is_of g.current) g.in_flight) ≡ true

later-AreOfRuns :
    (current : ℕ) (query next : Text) (requests : List (ℕ × Text))
    → AreOfRuns current query requests
    → AreOfRuns (current + 1) next requests
later-AreOfRuns current query next [] h = tt
later-AreOfRuns current query next (request ∷ requests) h =
    (omega (arith, h.0), ground (arith, h.0), later-AreOfRuns current query next requests h.2)

filter-AreOfRuns :
    (current out : ℕ) (query : Text) (requests : List (ℕ × Text))
    → AreOfRuns current query requests
    → AreOfRuns current query (filter (λ request. not (is_of out request)) requests)
filter-AreOfRuns current out query [] h = tt
filter-AreOfRuns current out query (request ∷ requests) h =
    ground (arith, h, filter-AreOfRuns current out query requests h.2)

-- The requests of other runs do not matter.
filter-any :
    (current out : ℕ) (requests : List (ℕ × Text))
    → (out == current) ≡ false
    → any (is_of current) (filter (λ request. not (is_of out request)) requests)
      ≡ any (is_of current) requests
filter-any current out [] h = refl
filter-any current out (request ∷ requests) h = ground (
  arith,
  h,
  filter-any current out requests h,
  eq_iff request.0 out,
  eq_iff request.0 current,
  eq_iff out current,
)

effect-IsWatched :
    (has_user : Bool) (search_query : Text) (g : GlobalSearch)
    → IsWatched g
    → IsWatched (search_effect has_user search_query g)
unfolding search_effect
effect-IsWatched has_user search_query g h =
    ground (arith, later-AreOfRuns g.current g.query (trim search_query) g.in_flight h.requests)

fires-IsWatched : (g : GlobalSearch) → IsWatched g → IsWatched (timer_fires g)
unfolding timer_fires
fires-IsWatched g h = ground (arith, h, eq_refl g.current, eq_refl g.query)

answered-IsWatched :
    (run : ℕ) (query : Text) (results : Option (List ℕ)) (g : GlobalSearch)
    → IsWatched g
    → IsWatched (answered run query results g)
unfolding answered
answered-IsWatched run query results g h = ground (
  arith,
  h,
  filter-AreOfRuns g.current run g.query g.in_flight h.requests,
  filter-any g.current run g.in_flight,
)

step-IsWatched : (e : Event) (g : GlobalSearch) → IsWatched g → IsWatched (step e g)
unfolding step
step-IsWatched (changes has_user search_query) g h = effect-IsWatched has_user search_query g h
step-IsWatched fires g h = fires-IsWatched g h
step-IsWatched (answers run query results) g h =
    ground (arith, h, answered-IsWatched run query results g h)

-- Whatever is typed, and in whatever order the timer fires and the requests are answered, from a state
-- where that holds, as it does at first: while the search shows that it is loading, its timer is set or a
-- request of its last run is on the wire, and every request of the last run asks for the last query.
pub run-IsWatched : (es : List Event) (g : GlobalSearch) → IsWatched g → IsWatched (run es g)
unfolding run
run-IsWatched [] g h = h
run-IsWatched (e ∷ es) g h = run-IsWatched es (step e g) (step-IsWatched e g h)

current_query :
    (current run : ℕ) (last query : Text) (requests : List (ℕ × Text))
    → AreOfRuns current last requests
    → any (λ (r : ℕ × Text). r.0 == run && r.1 == query) requests ≡ true
    → (run == current) ≡ true
    → query ≡ last
current_query current run last query [] h there same = ground (arith, there)
current_query current run last query (request ∷ requests) h there same = ground (
  arith,
  h.1,
  there,
  same,
  eq_iff request.0 run,
  eq_iff run current,
  eq_iff request.0 current,
  eq_iff request.1 query,
  eq_iff request.1 last,
  current_query current run last query requests h.2,
)

-- Where the spinner is watched and the requests of the last run ask for the last query: an answer with
-- results to a request on the wire is shown, as what the last query has found, and takes the spinner
-- down where it is of the last run, and otherwise changes nothing that is shown.
pub answer-shown :
    (run : ℕ) (query : Text) (found : List ℕ) (g : GlobalSearch)
    → IsWatched g
    → any (λ (r : ℕ × Text). r.0 == run && r.1 == query) g.in_flight ≡ true
    → let after = step (answers run query (some found)) g in
      (after.shown_for ≡ (if run == g.current then some g.query else g.shown_for))
      × (after.global_results ≡ (if run == g.current then found else g.global_results))
      × (after.global_loading ≡ (not (run == g.current) && g.global_loading))
unfolding step answered
answer-shown run query found g h there =
    ground (arith, there, current_query g.current run g.query query g.in_flight h.requests there)
