-- ===== src/Stream/Opening.antt =====
-- Opening a stream.
use spindly.Prelude.{
  ℕ, ◌+◌, ◌%◌, ◌^◌, ◌≤◌, ◌≡◌, ◌≢◌, refl, sym, ap, false, none, inl, inr, Run, done, ◌>>=◌, ◌>>◌,
  ltb, ◌==◌, if◌then◌else◌, arith, Bool-cases, >>=-eq-done,
}
use spindly.Codes.{Code, ok, nomem, inval, succeeded}
use spindly.Memory.{malloc}
use spindly.LinkedList.{Ptr, update}
use spindly.Zlib.{Zlib}
use spindly.ControlFrame.{ControlFrame, spdy_control_frame_destroy, spdy_control_mk_syn_stream}
use spindly.Phys.{Phys, stream_new}
use spindly.Stream.{stream_init0, send_frame, register_stream, stream_init, spindly_stream_new}

abbrev Opened : Type 0 → Type 0
Opened Strm = Code × Ptr × Phys Strm

-- The parts of a result.
abbrev code_of : {Strm : Type 0} → Run (Code × Ptr × Phys Strm) → Code
code_of (done r) = r.0
code_of _ = nomem

abbrev stream_of : {Strm : Type 0} → Run (Code × Ptr × Phys Strm) → Ptr
stream_of (done r) = r.1
stream_of _ = 0

abbrev next_of : {Strm : Type 0} → Run (Code × Ptr × Phys Strm) → ℕ
next_of (done r) = (r.2).streamid
next_of _ = 0

failed :
    {Strm : Type 0} (rc : Code) (s : Ptr) (phys : Phys Strm) (s' : Ptr) (phys' : Phys Strm)
    → ◌≡◌ {A = Run (Opened Strm)} (done (rc, s, phys)) (done (ok, s', phys'))
    → succeeded rc ≡ false
    → ⊥
failed rc s phys s' phys' e f = let same : rc ≡ ok = ap code_of e in ground arith

-- The end of stream_init for a stream of one's own.
finish :
    (z : Zlib) (sent phys' : Phys (z.Strm)) (frame : ControlFrame) (rc : Code) (s s' id next : ℕ)
    → (if succeeded rc
        then (◌>>=◌ {B = Opened (z.Strm)} (register_stream z sent s id) (λ added.
            ◌>>◌ {B = Opened (z.Strm)}
              (spdy_control_frame_destroy frame)
              (done (ok, s, record added { streamid = next }))))
        else (◌>>◌ {B = Opened (z.Strm)} (spdy_control_frame_destroy frame) (done (rc, 0, sent))))
      ≡ done (ok, s', phys')
    → (s' ≡ s) × (phys'.streamid ≡ next)
finish z sent phys' frame rc s s' id next h = elim (Bool-cases (succeeded rc)) [
  | inl y ↦
      let (added, _, h') = >>=-eq-done (register_stream z sent s id) _ (rw y at h) in
      let (_, _, e) = >>=-eq-done (spdy_control_frame_destroy frame) _ h' in
      (sym (ap stream_of e), sym (ap next_of e))
  | inr y ↦
      let (_, _, e) = >>=-eq-done (spdy_control_frame_destroy frame) _ (rw y at h) in
      absurd (failed rc 0 sent s' phys' e y)
]

-- What follows the two mallocs' checks.
after :
    (z : Zlib) (made phys' : Phys (z.Strm)) (s s' prio id next : ℕ)
    → (◌>>=◌ {B = Opened (z.Strm)} (spdy_control_mk_syn_stream id 0 prio none) (λ made_frame.
        ◌>>=◌ {B = Opened (z.Strm)} (send_frame z made s made_frame.1) (λ r.
          if succeeded r.0
          then (◌>>=◌ {B = Opened (z.Strm)} (register_stream z r.1 s id) (λ added.
              ◌>>◌ {B = Opened (z.Strm)}
                (spdy_control_frame_destroy made_frame.1)
                (done (ok, s, record added { streamid = next }))))
          else (◌>>◌ {B = Opened (z.Strm)}
              (spdy_control_frame_destroy made_frame.1)
              (done (r.0, 0, r.1))))))
      ≡ done (ok, s', phys')
    → (s' ≡ s) × (phys'.streamid ≡ next)
after z made phys' s s' prio id next h =
    let ((rc, frame), _, h1) = >>=-eq-done (spdy_control_mk_syn_stream id 0 prio none) _ h in
    let ((rc', sent), _, h2) = >>=-eq-done (send_frame z made s frame) _ h1 in
    finish z sent phys' frame rc' s s' id next h2

-- The connection with the new stream's struct.
abbrev pub with_stream : {Strm : Type 0} → Phys Strm → (prio userp config : ℕ) → Phys Strm
with_stream phys prio userp config =
    let (s, later) = malloc phys.memory in
    record phys {
      memory = later;
      stream_at = update phys.stream_at s (record {
        state = stream_new;
        streamid = 0;
        userp = userp;
        prio = prio;
        config = config;
        spdy = (stream_init0 false false).1;
      });
    }

-- Whenever spindly_stream_new returns OK, the priority is at most 7, the stream's address is what the
-- allocator answered and not NULL, and the connection's next stream id is two further, modulo 2^32.
pub spindly_stream_new-done :
    (z : Zlib) (stack : ControlFrame) (phys phys' : Phys (z.Strm)) (prio userp config : ℕ) (s : Ptr)
    → spindly_stream_new z stack phys prio userp config ≡ done (ok, s, phys')
    → (prio ≤ 7)
      × (s ≡ (malloc phys.memory).0)
      × (s ≢ 0)
      × (phys'.streamid ≡ (phys.streamid + 2) % 2 ^ 32)
unfolding spindly_stream_new stream_init
spindly_stream_new-done z stack phys phys' prio userp config s h = elim (Bool-cases (ltb 7 prio)) [
  | inl e ↦ absurd (failed inval 0 phys s phys' (rw e at h) refl)
  | inr e ↦
      let p = (malloc phys.memory).0 in
      elim (Bool-cases (p == 0)) [
        | inl e' ↦ absurd (failed nomem 0 _ s phys' (rw (e, e') at h) refl)
        | inr e' ↦
            let (same, next) =
              after z (with_stream phys prio userp config) phys' p s prio phys.streamid
                ((phys.streamid + 2) % 2 ^ 32) (rw (e, e') at h) in
            (ground arith, same, ground arith, next)
      ]
]
