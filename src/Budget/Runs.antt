-- ===== src/Budget/Runs.antt =====
-- Requests of one team that settle after the period in which they reserved is over.
use cortex_gateway.Prelude.{
  ℕ, ◌≡◌, ap, ◌∙◌, Bool, true, Option, some, arith, lookup, insert, lookup-insert_self, Text,
}
use cortex_gateway.Budget.Calendar.{DateTime}
use cortex_gateway.Budget.{
  Budget, ok, Table, get_enabled, is_period_expired, check_and_reserve, reconcile,
  release_reservation, apply_rollover, reserve_within,
}
use cortex_gateway.Budget.Laws.{IsStrict, get_enabled-lookup, get_enabled-insert, enforce-strict}
use cortex_gateway.Floats.{Floats, f0, fmax}

module _ (fl : Floats) where
  open fl use {F, add, sub}

  pub reconcile_lem :
      (team : Text) (db : Table F) (b : Budget F) (cost actual : F) (touched : DateTime)
      → get_enabled db team ≡ some b
      → lookup team (reconcile fl db team cost actual touched).0
        ≡ some (record b {
          reserved = fmax fl (f0 fl) (sub b.reserved cost);
          current_usage = fmax fl (f0 fl) (add b.current_usage actual);
          updated_at = touched;
        })
  unfolding reconcile
  reconcile_lem team db b cost actual touched g = rw (g, reconcile) (lookup-insert_self team _ db)

  pub release_lem :
      (team : Text) (db : Table F) (b : Budget F) (cost : F) (touched : DateTime)
      → get_enabled db team ≡ some b
      → lookup team (release_reservation fl db team cost touched)
        ≡ some (record b { reserved = fmax fl (f0 fl) (sub b.reserved cost); updated_at = touched })
  unfolding release_reservation
  release_lem team db b cost touched g = rw (g, release_reservation) (lookup-insert_self team _ db)

  rollover_row :
      (b b' : Budget F) (now later : DateTime)
      → is_period_expired b now ≡ true
      → apply_rollover fl b now later ≡ ok b'
      → (b'.reserved ≡ f0 fl) × (b'.enabled ≡ b.enabled) × (b'.policy ≡ b.policy)
  unfolding apply_rollover
  rollover_row b b' now later x r = ground arith

  rollover_reserve :
      (db db' : Table F) (team : Text) (b b' : Budget F) (cost : F) (percent : ℕ)
      (now later touched : DateTime) (row : Option (Budget F)) (warning : Bool)
      → get_enabled db team ≡ some b
      → IsStrict b'
      → apply_rollover fl b now later ≡ ok b'
      → check_and_reserve fl db team cost percent now later touched ≡ ok (db', row, warning)
      → db' ≡ insert team (record b' { reserved = add b'.reserved cost; updated_at = touched }) db
  unfolding check_and_reserve reserve_within
  rollover_reserve db db' team b b' cost percent now later touched row warning g s r h =
      ground (arith, enforce-strict fl b' cost percent s)

  -- A rollover forgets the requests in flight: where a request reserved `old` before the period
  -- ended, and one that came after the rollover reserved `cost`, the settlement of the first takes
  -- `old` off the reservation of the second, although that one is still in flight.
  pub reconcile-after_rollover :
      (db db' : Table F) (team : Text) (b b' : Budget F) (old actual cost : F) (percent : ℕ)
      (now later touched settled : DateTime) (row : Option (Budget F)) (warning : Bool)
      → get_enabled db team ≡ some b
      → IsStrict b
      → is_period_expired b now ≡ true
      → apply_rollover fl b now later ≡ ok b'
      → check_and_reserve fl db team cost percent now later touched ≡ ok (db', row, warning)
      → (rolled : Budget F) × (lookup team (reconcile fl db' team old actual settled).0
          ≡ some rolled)
        × (rolled.reserved ≡ fmax fl (f0 fl) (sub cost old))
  reconcile-after_rollover db db' team b b' old actual cost percent now later touched settled row
        warning g s x r h =
      let (zero_reserved, on, policy) = rollover_row b b' now later x r in
      let enabled = (get_enabled-lookup db team b g).1 in
      let e =
        rollover_reserve db db' team b b' cost percent now later touched row warning g (rw policy s)
          r h in
      let held = record b' { reserved = add b'.reserved cost; updated_at = touched } in
      (
        record held {
          reserved = fmax fl (f0 fl) (sub held.reserved old);
          current_usage = fmax fl (f0 fl) (add held.current_usage actual);
          updated_at = settled;
        },
        reconcile_lem team db' held old actual settled
            (rw e (get_enabled-insert db team held (on ∙ enabled))),
        ap (λ n. fmax fl (f0 fl) (sub n old))
            (ap (λ n. add n cost) zero_reserved ∙ fl.zero-add cost),
      )
