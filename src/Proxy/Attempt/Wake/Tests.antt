-- ===== src/Proxy/Attempt/Wake/Tests.antt =====
-- A wait of one second for a backend that comes up after 300 ms (src/proxy/handler/attempt/wake.rs).
use reduction.Prelude.{ℕ, max, ◌≡◌, refl, some, true, arith, leb}
use reduction.Proxy.Attempt.Wake.{
  Runtime, IsMonotonic, Ends, wait_for_reachable_tcp, wait_for_reachable_tcp-Ends, give_up_or,
  after_probe,
}

-- A world is its time; a refused connection takes no time.
abbrev warming : Runtime
warming = record {
  World = ℕ;
  now = λ w. (w, w);
  connect = λ t w. (w, leb 300 w);
  sleep_until = λ t w. max t w;
}

abbrev warming-IsMonotonic : IsMonotonic warming
warming-IsMonotonic = record {
  time = λ w. w;
  connect_later = λ t w. omega arith;
  now_between = λ w. (omega arith, omega arith);
  sleep_until_past = λ t w. omega arith;
}

-- It is up at the probe after 400 ms.
woken : wait_for_reachable_tcp warming 6 1000 0 ≡ some (400, true)
unfolding wait_for_reachable_tcp give_up_or after_probe
woken = refl

wait_for_reachable_tcp-Ends_example :
    Ends warming warming-IsMonotonic 1000 (wait_for_reachable_tcp warming 6 1000 0)
wait_for_reachable_tcp-Ends_example =
    wait_for_reachable_tcp-Ends warming warming-IsMonotonic 1000 5 0 (omega arith)
