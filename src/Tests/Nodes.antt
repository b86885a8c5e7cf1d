-- ===== src/Tests/Nodes.antt =====
-- A follower whose sync fails and recovers.
use flow_proxy.Prelude.{
  ◌≡◌, true, false, not, ◌&&◌, ◌||◌, List, [], ◌∷◌, Option, none, some, Text, codes, text_eq, leb,
  ◌==◌, ℤ, pos, positive_or,
}
use flow_proxy.Cluster.{ClusterSync, RuntimeState, instant, new_runtime_state, fail_close_status}
use flow_proxy.Cluster.FailClose.{
  Event, configured, switched, mode_after, attempted, failed, after, failures, latest_failure,
  stale, fail_close_status-after,
}

abbrev five_minutes : Text → Option ℤ
five_minutes t = some (pos 300_000_000_000)

abbrev config : ClusterSync
config = record {
  fail_close_enabled = true;
  fail_close_consecutive_failures = pos 2;
  fail_close_stale_after = [];
  certificate_sync_enabled = false;
}

abbrev history : List Event
history =
    failed (codes "fetch") none 30 30
    ∷ attempted 29 29
    ∷ failed (codes "fetch") none 20 20
    ∷ attempted 19 19
    ∷ configured config
    ∷ switched (codes "follower")
    ∷ []

abbrev node : List Event → RuntimeState
node h = after h (new_runtime_state (codes "Follower") config (pos 3_000_000_000))

fail_close_status-after_example : (fail_close_status five_minutes 40 40 (node history)).0 ≡ (
    text_eq (mode_after (codes "Follower") history) (codes "follower")
    && true
    && (leb (positive_or 10 (pos 2)) (failures history)
        || (not (latest_failure history == 0)
            && stale five_minutes
                (codes "Follower")
                config
                (pos 3_000_000_000)
                history
                (instant 40 40))))
fail_close_status-after_example =
    fail_close_status-after five_minutes (codes "Follower") config (pos 3_000_000_000) history 40 40
