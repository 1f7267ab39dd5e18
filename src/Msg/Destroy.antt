-- ===== src/Msg/Destroy.antt =====
-- What coap_msg_destroy and coap_msg_reset give back to the allocator, in lib/src/coap_msg.c.
use free_co_ap.Common.{
  suc, ◌+◌, ◌*◌, List, [], ◌∷◌, ◌≡◌, refl, ◌∙◌, Option, none, some, Heap, free, Bytes, length,
  arith,
}
use free_co_ap.Msg.{
  Op, State, zeroed, free_ops, free_payload, payload_blocks, owned_blocks, destroy,
}

free_ops_lem : (ops : List Op) (h : Heap) → free_ops ops h ≡ free (2 * length ops) h
unfolding free_ops
free_ops_lem [] h = let e : h.frees + 2 * 0 ≡ h.frees = omega arith in rw e
free_ops_lem (op ∷ ops) h =
    let e : h.frees + 2 + 2 * length ops ≡ h.frees + 2 * suc (length ops) = omega arith in
    free_ops_lem ops (free 2 h) ∙ rw e

free_payload_lem : (p : Option Bytes) (h : Heap) → free_payload p h ≡ free (payload_blocks p) h
free_payload_lem none h = let e : h.frees + 0 ≡ h.frees = omega arith in rw e
free_payload_lem (some b) h = refl

-- Every block that the message owns is freed, once, and the structure is cleared.
pub destroy_lem :
    (s : State) → destroy s ≡ record { msg = zeroed; heap = free (owned_blocks s.msg) s.heap }
unfolding destroy
destroy_lem s =
    let n = 2 * length s.msg.op_list in
    let e : s.heap.frees + n + payload_blocks s.msg.payload
        ≡ s.heap.frees + (n + payload_blocks s.msg.payload) =
      omega arith in
    rw (free_ops_lem s.msg.op_list s.heap, free_payload_lem s.msg.payload (free n s.heap), e)
