-- ===== src/Budget/Interleaved.antt =====
-- Interleaved requests of one team within one period, at amounts that floats hold exactly: each
-- reserves an estimate and later settles it by its actual cost or releases it, in any order, while
-- other teams do the same.
use cortex_gateway.Prelude.{
  ℕ, ◌+◌, ◌-◌, ◌≤◌, ◌≡◌, refl, sym, ap, ◌∙◌, inl, inr, Bool, true, false, Option, some, List, [],
  ◌∷◌, ◌++◌, arith, leb, leb→le, Bool-cases, lookup, insert, lookup-insert_self,
}
use cortex_gateway.Budget.Calendar.{DateTime}
use cortex_gateway.Budget.{
  Budget, Table, ok, get_enabled, is_period_expired, check_and_reserve, reconcile,
  release_reservation, apply_rollover, reserve_within,
}
use cortex_gateway.Budget.Laws.{IsStrict, enforce-strict, lookup-get_enabled}
use cortex_gateway.Floats.{Floats, f0, fmax}
use cortex_gateway.Budget.{Text}
use cortex_gateway.Budget.Runs.{reconcile_lem}
use cortex_gateway.Budget.Runs.{release_lem}

-- Amounts that are multiples of a unit, a power of two, up to `most` of them, which is 2 ^ 53 at
-- most: floats add, subtract and compare them exactly.
pub record Exact (fl : Floats) : Type 0 where
  pub of : ℕ → fl.F
  pub most : ℕ
  pub of-zero : of 0 ≡ f0 fl
  pub add-of : (a b : ℕ) → a + b ≤ most → fl.add (of a) (of b) ≡ of (a + b)
  pub sub-of : (a b : ℕ) → b ≤ a → a ≤ most → fl.sub (of a) (of b) ≡ of (a - b)
  pub le-of : (a b : ℕ) → a ≤ most → b ≤ most → fl.le (of a) (of b) ≡ leb a b

abbrev pub sum : List ℕ → ℕ
sum [] = 0
sum (x ∷ xs) = x + sum xs

sum-append : (xs ys : List ℕ) → sum (xs ++ ys) ≡ sum xs + sum ys
sum-append [] ys = omega arith
sum-append (x ∷ xs) ys = omega (arith, sum-append xs ys)

module _ (fl : Floats) (exact : Exact fl) where
  open fl use {F, add, sub}
  open exact use {of, most}

  -- The table, and the estimates, in units, of the team's requests that are on their way.
  pub record State : Type 0 where
    pub table : Table F
    pub in_flight : List ℕ

  -- A request reserves, settles for at most its estimate, or releases; or another team's does.
  pub data Step (team : Text) : State → State → Type 0 where
    reserve :
        {s : State} (cost percent : ℕ) (now later touched : DateTime) {b : Budget F} {db : Table F}
        {row : Option (Budget F)} {warning : Bool}
        → lookup team s.table ≡ some b
        → is_period_expired b now ≡ false
        → check_and_reserve fl s.table team (of cost) percent now later touched
          ≡ ok (db, row, warning)
        → cost + cost ≤ most
        → Step team s (record { table = db; in_flight = cost ∷ s.in_flight })
    settle :
        {s : State} (before : List ℕ) (cost actual : ℕ) (after : List ℕ) (touched : DateTime)
        → s.in_flight ≡ before ++ cost ∷ after
        → actual ≤ cost
        → Step team s (record {
          table = (reconcile fl s.table team (of cost) (of actual) touched).0;
          in_flight = before ++ after;
        })
    release :
        {s : State} (before : List ℕ) (cost : ℕ) (after : List ℕ) (touched : DateTime)
        → s.in_flight ≡ before ++ cost ∷ after
        → Step team s (record {
          table = release_reservation fl s.table team (of cost) touched;
          in_flight = before ++ after;
        })
    other :
        {s : State} (db : Table F)
        → lookup team db ≡ lookup team s.table
        → Step team s (record { table = db; in_flight = s.in_flight })

  pub data Reach (team : Text) (s : State) : State → Type 0 where
    start : Reach team s s
    next : {t u : State} → Reach team s t → Step team t u → Reach team s u

  -- The row of the team: enabled, under a policy that rejects, with the given limit, its
  -- reservations those in flight, and usage and reservations within the limit.
  pub record Within (team : Text) (limit : ℕ) (s : State) : Type 0 where
    pub row : Budget F
    pub used : ℕ
    pub found : lookup team s.table ≡ some row
    pub on : row.enabled ≡ true
    pub strict : IsStrict row
    pub capped : row.limit_amount ≡ of limit
    pub usage : row.current_usage ≡ of used
    pub held : row.reserved ≡ of (sum s.in_flight)
    pub bounded : used + sum s.in_flight ≤ limit

  -- `max(0.0, x)` of an amount.
  fmax-of : (n : ℕ) → n ≤ most → fmax fl (f0 fl) (of n) ≡ of n
  unfolding fmax
  fmax-of n h =
      let zero_le : fl.le (f0 fl) (of n) ≡ true =
        rw (← exact.of-zero) (exact.le-of 0 n (omega arith) h ∙ ground arith) in
      elim (Bool-cases (fl.le (of n) (f0 fl))) [
        | inl below ↦ rw below (fl.le_antisym (f0 fl) (of n) zero_le below)
        | inr above ↦ rw above refl
      ]

  check_and_reserve-strict :
      (db db' : Table F) (team : Text) (b : Budget F) (cost : F) (percent : ℕ)
      (now later touched : DateTime) (row : Option (Budget F)) (warning : Bool)
      → get_enabled db team ≡ some b
      → IsStrict b
      → is_period_expired b now ≡ false
      → check_and_reserve fl db team cost percent now later touched ≡ ok (db', row, warning)
      → (fl.le (add (add b.current_usage b.reserved) cost) b.limit_amount ≡ true)
        × (db' ≡ insert team (record b { reserved = add b.reserved cost; updated_at = touched }) db)
  unfolding check_and_reserve apply_rollover reserve_within
  check_and_reserve-strict db db' team b cost percent now later touched row warning g s x h =
      ground (arith, enforce-strict fl b cost percent s)

  module _ (team : Text) (limit : ℕ) {s : State} (w : Within team limit s)
      (room : limit + limit ≤ most) where
    known : get_enabled s.table team ≡ some w.row
    known = lookup-get_enabled s.table team w.row w.found w.on

    total :
        (before : List ℕ) (cost : ℕ) (after : List ℕ)
        → s.in_flight ≡ before ++ cost ∷ after
        → sum s.in_flight ≡ cost + sum (before ++ after)
    total before cost after p =
        rw p (omega (arith, sum-append before (cost ∷ after), sum-append before after))

    -- What the row holds behind a reservation and behind its end.
    reserved_of :
        (cost : ℕ) → cost + cost ≤ most → add w.row.reserved (of cost) ≡ of (cost + sum s.in_flight)
    reserved_of cost small =
        ap (λ r. add r (of cost)) w.held
        ∙ exact.add-of (sum s.in_flight) cost (omega (arith, w.bounded))
        ∙ ap of (omega arith)

    returned_of :
        (before : List ℕ) (cost : ℕ) (after : List ℕ)
        → s.in_flight ≡ before ++ cost ∷ after
        → fmax fl (f0 fl) (sub w.row.reserved (of cost)) ≡ of (sum (before ++ after))
    returned_of before cost after p =
        let t = total before cost after p in
        let n : sum s.in_flight - cost ≡ sum (before ++ after) = omega (arith, t) in
        ap (λ r. fmax fl (f0 fl) (sub r (of cost))) w.held
        ∙ ap (fmax fl (f0 fl)) (
            exact.sub-of (sum s.in_flight) cost (omega (arith, t)) (omega (arith, w.bounded))
            ∙ ap of n)
        ∙ fmax-of (sum (before ++ after)) (omega (arith, t, w.bounded))

    fits_of :
        (cost : ℕ)
        → cost + cost ≤ most
        → fl.le (add (add w.row.current_usage w.row.reserved) (of cost)) w.row.limit_amount ≡ true
        → w.used + sum s.in_flight + cost ≤ limit
    fits_of cost small h =
        let n = w.used + sum s.in_flight in
        let sums : add (add w.row.current_usage w.row.reserved) (of cost) ≡ of (n + cost) =
          rw (w.usage, w.held)
            (ap (λ a. add a (of cost))
                (exact.add-of w.used (sum s.in_flight) (omega (arith, w.bounded)))
              ∙ exact.add-of n cost (omega (arith, w.bounded))) in
        leb→le (n + cost) limit (
          sym (exact.le-of (n + cost) limit (omega (arith, w.bounded)) (omega arith))
          ∙ rw (sums, w.capped) at h)

    Step-Within : {t : State} → Step team s t → Within team limit t
    Step-Within (reserve cost percent now later touched {b} {db} {row} {warning} f x h small) =
        let same : b ≡ w.row = cc (f, w.found) in
        let (fits, e) =
          check_and_reserve-strict s.table db team w.row (of cost) percent now later touched row
            warning known w.strict (rw same at x) h in
        let held = record w.row { reserved = add w.row.reserved (of cost); updated_at = touched } in
        record {
          row = held;
          used = w.used;
          found = rw e (lookup-insert_self team held s.table);
          on = w.on;
          strict = w.strict;
          capped = w.capped;
          usage = w.usage;
          held = reserved_of cost small;
          bounded = omega (arith, fits_of cost small fits);
        }
    Step-Within (settle before cost actual after touched p le) =
        let t = total before cost after p in
        let within : w.used + actual ≤ most = omega (arith, t, w.bounded) in
        record {
          row = record w.row {
            reserved = fmax fl (f0 fl) (sub w.row.reserved (of cost));
            current_usage = fmax fl (f0 fl) (add w.row.current_usage (of actual));
            updated_at = touched;
          };
          used = w.used + actual;
          found = reconcile_lem fl team s.table w.row (of cost) (of actual) touched known;
          on = w.on;
          strict = w.strict;
          capped = w.capped;
          usage =
              ap (λ u. fmax fl (f0 fl) (add u (of actual))) w.usage
              ∙ ap (fmax fl (f0 fl)) (exact.add-of w.used actual within)
              ∙ fmax-of (w.used + actual) within;
          held = returned_of before cost after p;
          bounded = omega (arith, t, w.bounded);
        }
    Step-Within (release before cost after touched p) = record {
      row = record w.row {
        reserved = fmax fl (f0 fl) (sub w.row.reserved (of cost));
        updated_at = touched;
      };
      used = w.used;
      found = release_lem fl team s.table w.row (of cost) touched known;
      on = w.on;
      strict = w.strict;
      capped = w.capped;
      usage = w.usage;
      held = returned_of before cost after p;
      bounded = omega (arith, total before cost after p, w.bounded);
    }
    Step-Within (other db p) = record {
      row = w.row;
      used = w.used;
      found = p ∙ w.found;
      on = w.on;
      strict = w.strict;
      capped = w.capped;
      usage = w.usage;
      held = w.held;
      bounded = w.bounded;
    }

  Reach-Within :
      (team : Text) (limit : ℕ) {s t : State}
      → limit + limit ≤ most
      → Within team limit s
      → Reach team s t
      → Within team limit t
  Reach-Within team limit room w start = w
  Reach-Within team limit room w (next r st) =
      Step-Within team limit (Reach-Within team limit room w r) room st

  -- Where floats hold all amounts exactly, the limit and every estimate being half of the largest
  -- such amount at most: from a table where a team has a budget that is enabled, rejects, and has
  -- nothing used or in flight, however its requests interleave within the period, if none settles for
  -- more than its estimate, the row's reservations are those of the requests in flight, and its usage
  -- and they together are within the limit.
  pub Reach-usage :
      (team : Text) (limit : ℕ) (s t : State) (b : Budget F)
      → limit + limit ≤ most
      → lookup team s.table ≡ some b
      → b.enabled ≡ true
      → IsStrict b
      → b.limit_amount ≡ of limit
      → b.current_usage ≡ f0 fl
      → b.reserved ≡ f0 fl
      → s.in_flight ≡ []
      → Reach team s t
      → (row : Budget F) × (used : ℕ) × (lookup team t.table ≡ some row)
        × (row.current_usage ≡ of used)
        × (row.reserved ≡ of (sum t.in_flight))
        × (used + sum t.in_flight ≤ limit)
  Reach-usage team limit s t b room f e p l u v i r =
      let first : Within team limit s = record {
        row = b;
        used = 0;
        found = f;
        on = e;
        strict = p;
        capped = l;
        usage = u ∙ sym exact.of-zero;
        held = rw i (v ∙ sym exact.of-zero);
        bounded = rw i (omega arith);
      } in
      let w = Reach-Within team limit room first r in
      (w.row, w.used, w.found, w.usage, w.held, w.bounded)
