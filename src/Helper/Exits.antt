-- ===== src/Helper/Exits.antt =====
-- Which tasks the daemon holds and what is set up, while it runs and when it ends. A task is held
-- from its spawning until it is awaited, is aborted, or is found to have ended.
use ssh_rocket.Base.{ℕ, ◌≡◌, refl, ◌∙◌, Bool, true, false, List, [], ◌∷◌, ◌++◌, Option, none}
use ssh_rocket.Helper.{Effect, clean_stale_resources, ActiveSession}
use ssh_rocket.Helper.Daemon.{
  Turn, Next, go_on, leave_loop, fail_with, crash, stop_old, step, End, in_loop, ended, failed,
  crashed, follow, append_end, run_loop, run_daemon,
}
use ssh_rocket.Helper.Ledger.{Ledger, off, post, post-append}
use ssh_rocket.Helper.Signature.{Signature}
use ssh_rocket.Helper.Turns.{expected, Fits, on_event-Fits, stop_old-off}

module _ {N : Type 0} (to_vec : Signature N → List ℕ) where
  -- What the daemon is left with at each end.
  abbrev pub FitsEnd : End to_vec → Ledger → Type 0
  FitsEnd (in_loop s) l = l ≡ expected s
  FitsEnd ended l = l ≡ off
  FitsEnd (failed s) l = l ≡ expected s
  FitsEnd crashed l = Unit

  FitsEnd-append :
      (es : List Effect) (r : List Effect × End to_vec) (l k : Ledger)
      → post es l ≡ k
      → FitsEnd r.1 (post r.0 k)
      → FitsEnd (append_end to_vec es r).1 (post (append_end to_vec es r).0 l)
  FitsEnd-append es (fs, e) l k h f = rw (post-append es fs l, h) f

  follow-Fits :
      (es : List Effect) (t : Turn N) (n : Next N) (l : Ledger)
      (rest : Option (ActiveSession N) → List Effect × End to_vec)
      → Fits n (post es l)
      → ((s : Option (ActiveSession N)) → FitsEnd (rest s).1 (post (rest s).0 (expected s)))
      → FitsEnd
          (append_end to_vec es (follow to_vec t n rest)).1
          (post (append_end to_vec es (follow to_vec t n rest)).0 l)
  unfolding follow post
  follow-Fits es t (go_on s) l rest h k = FitsEnd-append es (rest s) l (expected s) h (k s)
  follow-Fits es t (leave_loop s) l rest h k =
      FitsEnd-append es (stop_old to_vec s t.dns t.tun ++ clean_stale_resources ∷ [], ended) l
        (expected s) h
        (post-append (stop_old to_vec s t.dns t.tun) (clean_stale_resources ∷ []) (expected s)
          ∙ rw (stop_old-off to_vec s t.dns t.tun) refl)
  follow-Fits es t (fail_with s) l rest h k = FitsEnd-append es ([], failed s) l (expected s) h refl
  follow-Fits es t crash l rest h k = tt

  run_loop-Fits :
      (ts : List (Turn N)) (s : Option (ActiveSession N))
      → FitsEnd (run_loop to_vec ts s).1 (post (run_loop to_vec ts s).0 (expected s))
  unfolding run_loop post
  run_loop-Fits [] s = refl
  run_loop-Fits (t ∷ ts) s =
      follow-Fits (step to_vec s t).0 t (step to_vec s t).1 (expected s) (run_loop to_vec ts)
        (on_event-Fits to_vec s t t.event) (run_loop-Fits ts)

  -- For all turns of the daemon, whatever the system answers, and whether or not it can write
  -- events and listen for termination: while it is in its loop, or if it fails, if a session is
  -- active, the routes are set up, and one TUN task and one DNS task have been spawned and not yet
  -- awaited, aborted or found ended; if none is active, there is no such task and nothing is set
  -- up; once it has ended, there is no such task and nothing is set up. Only a panic leaves this
  -- open.
  pub run_daemon-Fits :
      (writable listening : Bool) (ts : List (Turn N))
      → FitsEnd
          (run_daemon to_vec writable listening ts).1
          (post (run_daemon to_vec writable listening ts).0 off)
  unfolding run_daemon post
  run_daemon-Fits false listening ts = refl
  run_daemon-Fits true false ts = refl
  run_daemon-Fits true true ts = run_loop-Fits ts none
