-- ===== src/Client/Pacing.antt =====
-- The timeouts between the retransmissions, and the end of them (lib/src/coap_client.c).
use free_co_ap.Common.{
  ℕ, zero, suc, ◌+◌, ◌*◌, ◌/◌, ◌%◌, ◌^◌, ◌≤◌, ◌<◌, false, [], ◌∷◌, ◌++◌, ◌≡◌, refl, inl, inr,
  Option, none, some, Result, ok, err, stuck, leb, arith, Bool-cases, u32_mod,
}
use free_co_ap.Common.Actions.{continue}
use free_co_ap.Msg.{Msg}
use free_co_ap.Client.{
  Client, Run, later, next_rand, next_timer, arm, count_retrans, doubled_msec, max_retransmit,
  start_timer, init_ack_timeout, double_timeout, update_ack_timer, start_ack_timer,
}
use free_co_ap.Client.Transfer.{send, sent_status, handle_ack_timeout}

-- The timeout is `first` milliseconds, doubled once for each retransmission counted.
pub record Paced (first : ℕ) (c : Client) : Type 0 where
  pub doubled : c.tv_sec * 1000 + c.tv_nsec / 1000000 ≡ first * 2 ^ c.num_retrans
  pub nsec_fits : c.tv_nsec < 1000000000
  pub at_least : 2000 ≤ first
  pub at_most : first < 3000
  pub few : c.num_retrans ≤ max_retransmit

arm-client : (o : Option ℕ) (s : Run) → (arm o s).1.client ≡ s.client
arm-client none s = refl
arm-client (some e) s = refl

-- coap_client_start_ack_timer sets a timeout of 2 to 3 seconds and no retransmission.
pub start_ack_timer-Paced :
    (s : Run) → Paced (2000 + next_rand s.rands % 1000) (start_ack_timer s).1.client
unfolding start_ack_timer start_timer init_ack_timeout
start_ack_timer-Paced s = rw (arm-client (next_timer s.timers) _) (record {
  doubled = omega arith;
  nsec_fits = omega arith;
  at_least = omega arith;
  at_most = omega arith;
  few = omega arith;
})

doubling :
    (first n : ℕ)
    → n < max_retransmit
    → first < 3000
    → (first * 2 ^ (n + 1) ≡ 2 * (first * 2 ^ n)) × (2 * (first * 2 ^ n) < u32_mod)
doubling first zero h f = (omega arith, omega arith)
doubling first (suc zero) h f = (omega arith, omega arith)
doubling first (suc (suc zero)) h f = (omega arith, omega arith)
doubling first (suc (suc (suc zero))) h f = (omega arith, omega arith)
doubling first (suc (suc (suc (suc n)))) h f = absurd (let z : ⊥ = omega arith in z)

msec_again :
    (m : ℕ) → m < u32_mod → m % u32_mod / 1000 * 1000 + m % u32_mod % 1000 * 1000000 / 1000000 ≡ m
msec_again m h = let e : m % u32_mod ≡ m = omega arith in rw e (omega arith)

nsec_again : (m : ℕ) → m % 1000 * 1000000 < 1000000000
nsec_again m = omega arith

doubled-Paced :
    (first : ℕ) (s : Run)
    → Paced first s.client
    → s.client.num_retrans < max_retransmit
    → Paced first (record (double_timeout s).client { num_retrans = s.client.num_retrans + 1 })
unfolding double_timeout
doubled-Paced first s h lt =
    let d = doubling first s.client.num_retrans lt h.at_most in
    record {
      doubled = rw (h.doubled, d.0) (msec_again (2 * (first * 2 ^ s.client.num_retrans)) d.1);
      nsec_fits = nsec_again (doubled_msec s.client);
      at_least = h.at_least;
      at_most = h.at_most;
      few = omega arith;
    }

-- Where a timeout of the acknowledgement is handled with success, one retransmission more is
-- counted, and the timer was set to the timeout that belongs to the new count.
pub record Retransmitted (first : ℕ) (s t : Run) : Type 0 where
  pub paced : Paced first t.client
  pub one_more : t.client.num_retrans ≡ s.client.num_retrans + 1
  pub armed_is : t.armed ≡ s.armed ++ ((t.client.tv_sec, t.client.tv_nsec) ∷ [])

send-client :
    (msg : Msg) (s : Run) → ((send msg s).1.client ≡ s.client) × ((send msg s).1.armed ≡ s.armed)
unfolding send
send-client msg s = (ground arith, ground arith)

resent-Retransmitted :
    (first : ℕ) (s t : Run) (r : Result ℕ × Run) {n : ℕ} {u : Run}
    → Retransmitted first s t
    → (r.1.client ≡ t.client) × (r.1.armed ≡ t.armed)
    → sent_status r ≡ (ok n, u)
    → Retransmitted first s u
resent-Retransmitted first s t (ok k, v) {u = u} h e q =
    let same : v ≡ u = cc in
    rw (← same) (record {
      paced = rw e.0 h.paced;
      one_more = rw e.0 h.one_more;
      armed_is = rw (e.0, e.1) h.armed_is;
    })
resent-Retransmitted first s t (err k, v) h e q = cc
resent-Retransmitted first s t (stuck, v) h e q = cc

armed-Retransmitted :
    (first : ℕ) (s : Run) (o : Option ℕ) {n : ℕ} {u : Run}
    → Paced first s.client
    → s.client.num_retrans < max_retransmit
    → let t = record (double_timeout s) { timers = later s.timers } in
      continue (continue (arm o t) (λ _. count_retrans)) (λ _ v. sent_status (send v.req v))
        ≡ (ok n, u)
      → Retransmitted first s u
unfolding double_timeout
armed-Retransmitted first s none h lt q =
    let t = record (double_timeout s) { timers = later s.timers } in
    let v = (continue (arm none t) (λ _. count_retrans)).1 in
    resent-Retransmitted first s v (send v.req v)
      (record { paced = doubled-Paced first s h lt; one_more = refl; armed_is = refl })
      (send-client v.req v) q
armed-Retransmitted first s (some e) h lt q = cc

below_of : (m n : ℕ) → leb m n ≡ false → n < m
below_of m n e = ground arith

-- Each retransmission doubles the timeout, and there are four at most: where the timeout is
-- `first` milliseconds, from 2000 to 2999, doubled once for each retransmission counted, and
-- coap_client_handle_ack_timeout succeeds, it is so again with one retransmission more, and the
-- timer was set to it.
pub handle_ack_timeout-Retransmitted :
    (first : ℕ) (s : Run) {n : ℕ} {t : Run}
    → Paced first s.client
    → handle_ack_timeout s ≡ (ok n, t)
    → Retransmitted first s t
unfolding handle_ack_timeout update_ack_timer start_timer double_timeout
handle_ack_timeout-Retransmitted first s h q =
    elim (Bool-cases (leb max_retransmit s.client.num_retrans)) [
      | inl e ↦ let z = rw e at q in cc
      | inr e ↦ armed-Retransmitted first s (next_timer s.timers) h (below_of _ _ e) (rw e at q)
    ]
