-- ===== src/StH2c/Placed.antt =====
-- Which descriptors `descq_proc_st_h2c_request` leaves in which entries of the ring.
use Prim.Native.Nat.{bit_or}
use qdmav.Prelude.{
  ℕ, ◌+◌, ◌%◌, ◌^◌, ◌≤◌, ◌<◌, ◌≡◌, refl, ap, ◌∙◌, Bool, List, [], ◌∷◌, arith, ◌==◌, if◌then◌else◌,
  modify, add32,
}
use qdmav.Ring.Laws.{ring_max}
use qdmav.Request.{Request}
use qdmav.Descq.{Descq, emit}
use qdmav.Descq.Update.{descq_h2c_pidx_update}
use qdmav.Mm.Placed.{next_slot}
use qdmav.StH2c.{H2cDesc, StLoop, next_pidx, st_put, st_desc}
use qdmav.StH2c.Chunks.{StChunk, st_put_all}

-- An entry that sends `len` bytes at `addr`, which are the packet's last where `last` is set.
abbrev pub sends : Bool → ℕ → ℕ → H2cDesc → H2cDesc
sends last addr len d = record {
  cdh_flags = bit_or d.cdh_flags 13;
  pld_len = len % 2 ^ 16;
  len = len % 2 ^ 16;
  flags = if last then bit_or d.flags 2 else d.flags;
  src_addr = addr;
}

-- The ring with an entry for each chunk, in order, from the entry `i` on.
unfoldable pub st_placed : ℕ → ℕ → List StChunk → List H2cDesc → List H2cDesc
st_placed rngsz i [] ring = ring
st_placed rngsz i ((last, addr, len) ∷ cs) ring =
    st_placed rngsz (next_slot rngsz i) cs (modify i (sends last addr len) ring)

-- The ring after a call that writes the chunks `cs`: a request's first entry starts the packet.
abbrev pub st_sent_ring : Descq → List H2cDesc → Request → List StChunk → List H2cDesc
st_sent_ring q ring cb cs = st_placed q.conf.rngsz q.pidx cs (
    if cb.offset == 0
    then modify q.pidx (λ d. record d { flags = bit_or d.flags 1 }) ring
    else ring)

next-slot :
    (q : Descq)
    → q.conf.rngsz ≤ ring_max
    → q.pidx < q.conf.rngsz
    → ((next_pidx q).pidx ≡ next_slot q.conf.rngsz q.pidx)
      × (next_slot q.conf.rngsz q.pidx < q.conf.rngsz)
unfolding next_pidx
next-slot q r l = let e : add32 q.pidx 1 ≡ q.pidx + 1 = omega arith in (rw e refl, ground arith)

pub put_all-placed :
    (cs : List StChunk) (s : StLoop)
    → s.queue.conf.rngsz ≤ ring_max
    → s.queue.pidx < s.queue.conf.rngsz
    → (st_put_all cs s).ring ≡ st_placed s.queue.conf.rngsz s.queue.pidx cs s.ring
unfolding st_put_all st_placed st_put st_desc descq_h2c_pidx_update emit next_pidx
put_all-placed [] s r l = refl
put_all-placed ((last, addr, len) ∷ cs) s r l =
    let t = st_put last addr len s in
    let (e, b) = next-slot s.queue r l in
    put_all-placed cs t r (rw e b) ∙ ap (λ i. st_placed s.queue.conf.rngsz i cs t.ring) e
