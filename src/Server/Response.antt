-- ===== src/Server/Response.antt =====
-- The response that coap_server_exchange (lib/src/coap_server.c) sends to a request.
use free_co_ap.Common.{
  ℕ, suc, ◌+◌, ◌%◌, ◌≤◌, ◌<◌, Bool, false, not, ◌||◌, List, ◌≡◌, refl, inl, inr, Bytes, length,
  take, drop, take-append, length-take, ltb, ◌==◌, arith, Bool-cases, u32_mod,
}
use free_co_ap.Msg.{Msg, State, con, non, ack, rst, max_token_len, max_msg_id}
use free_co_ap.Msg.Build.{set_type, set_msg_id, set_token}
use free_co_ap.Msg.Parse.{copy_front}
use free_co_ap.Msg.Header.{Post}
use free_co_ap.Client.Exchange.{gen_rand_str, le16}
use free_co_ap.Server.{Shared, redraw, get_next_msg_id}
use free_co_ap.Server.Exchange.{response_type, address_response}

-- Two random bytes make a message ID.
le16_lt : (n : ℕ) (rands : List ℕ) → le16 (gen_rand_str 2 rands).0 < 65536
unfolding gen_rand_str
le16_lt n rands = omega arith

-- The next message ID is one more than the last where that is in range, and in range always; the
-- loop that draws it never takes a third round.
pub get_next_msg_id-in_range :
    (s : Shared) (fuel : ℕ)
    → ((get_next_msg_id s).0 ≤ max_msg_id)
      × ((get_next_msg_id s).1.msg_id ≡ (get_next_msg_id s).0)
      × (s.msg_id < max_msg_id → (get_next_msg_id s).0 ≡ s.msg_id + 1)
      × (redraw (suc (suc fuel)) ((s.msg_id + 1) % u32_mod) s.rands
          ≡ redraw 2 ((s.msg_id + 1) % u32_mod) s.rands)
unfolding get_next_msg_id redraw
get_next_msg_id-in_range s fuel =
    let drawn = le16_lt 0 s.rands in
    let low : ltb max_msg_id (le16 (gen_rand_str 2 s.rands).0) ≡ false = ground arith in
    elim (Bool-cases (ltb max_msg_id ((s.msg_id + 1) % u32_mod))) [
      | inl e ↦ rw (e, low) (omega arith, refl, λ h. absurd (ground arith), refl)
      | inr e ↦ rw e (ground arith, refl, λ h. omega arith, refl)
    ]

-- What the header of a response takes over from its request.
pub record Addressed (id : ℕ) (sep : Bool) (m b : Msg) : Type 0 where
  pub id_is : b.msg_id ≡ id
  pub type_is : b.type ≡ response_type sep m
  pub token_len_is : b.token_len ≡ m.token_len
  pub token_is : m.token_len ≤ length m.token → take m.token_len b.token ≡ take m.token_len m.token

take_front : (n : ℕ) (xs ys : Bytes) → n ≤ length xs → take n (copy_front n xs ys) ≡ take n xs
take_front n xs ys h =
    take-append n (take n xs) (drop n ys) (let z = length-take n xs in omega arith)

known_type :
    (sep : Bool) (m : Msg)
    → not (
        response_type sep m == con
        || response_type sep m == non
        || response_type sep m == ack
        || response_type sep m == rst)
      ≡ false
known_type sep m = ground arith

pub address_response-Addressed :
    (id : ℕ) (sep : Bool) (m : Msg) (s : State)
    → Post (Addressed id sep m) (address_response id sep m s)
unfolding set_msg_id set_token set_type
address_response-Addressed id sep m s = elim (Bool-cases (ltb max_msg_id id)) [
  | inl a ↦ rw a tt
  | inr a ↦ elim (Bool-cases (ltb max_token_len m.token_len)) [
    | inl b ↦ rw (a, b) tt
    | inr b ↦
        rw (a, b, known_type sep m)
          (record {
            id_is = refl;
            type_is = refl;
            token_len_is = refl;
            token_is = take_front m.token_len m.token s.msg.token;
          })
  ]
]
