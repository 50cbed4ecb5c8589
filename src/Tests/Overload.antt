-- ===== src/Tests/Overload.antt =====
-- A run of the load shedder of backend/src/middleware/loadShedder.ts with room for one request.
use hop_drop.Common.{refl, ◌≤◌, [], length, ◌∷◌, ◌≡◌, List}
use hop_drop.Http.Shedder.Refinement.{load_shedder-Refines, nobody, serve_all}
use hop_drop.Http.Shedder.{
  passed, shed, admitted, health, other_path, HttpEvent, fresh_shedder, handle_all,
}
use hop_drop.Collection.{insert, update_by_id, find_by_id}

abbrev busy : List HttpEvent
busy =
    HttpEvent.arrives (other_path "/trips")
    ∷ HttpEvent.arrives (other_path "/trips")
    ∷ HttpEvent.arrives health
    ∷ HttpEvent.finishes 0
    ∷ HttpEvent.closes 0
    ∷ HttpEvent.arrives (other_path "/jobs")
    ∷ []

load_shedder-Refines_example :
    ((handle_all 1 busy fresh_shedder).0 ≡ (serve_all 1 busy nobody).0)
    × ((handle_all 1 busy fresh_shedder).1.in_flight
        ≡ length (serve_all 1 busy nobody).1.open_requests)
    × ((handle_all 1 busy fresh_shedder).1.in_flight ≤ 1)
load_shedder-Refines_example = load_shedder-Refines 1 busy

busy_verdicts : (handle_all 1 busy fresh_shedder).0 ≡ admitted ∷ shed ∷ passed ∷ admitted ∷ []
unfolding handle_all find_by_id update_by_id insert
busy_verdicts = refl
