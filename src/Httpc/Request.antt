-- ===== src/Httpc/Request.antt =====
-- A request collects what the transfer delivers.
use openwrt_sub_converter.Common.{
  ℕ, ◌+◌, ◌^◌, ◌<◌, true, List, [], ◌∷◌, ◌++◌, append_assoc, append-nil, Option, none, some, ◌≡◌,
  ◌≢◌, inl, inr, refl, sym, subst, ◌∙◌, ap, arith, Bytes, length, length-append, if◌then◌else◌,
  ◌==◌, ==_iff, Bool-cases, done, ◌>>=◌,
}
use openwrt_sub_converter.Httpc.Body.{Holds, body_write_cb-Holds}
use openwrt_sub_converter.Httpc.Fields.{NoColon, IsField, header_write_cb-IsField}
use openwrt_sub_converter.Httpc.{
  Delivery, Collected, HttpcHeader, HttpcResponse, Transfer, Curl, HttpcReq, HttpcStatus, deliver,
  deliver_all, header_write_cb, run_transfer, nothing_collected, status_of, httpc_request,
  perform_at, setup_of, no_response,
}
use openwrt_sub_converter.Strbuf.Refine.{length-view, strbuf_init-IsValid}
use openwrt_sub_converter.Strbuf.{Strbuf, Heap}

-- The bodies that are delivered, one behind the other.
abbrev pub all_bodies : List Delivery → Bytes
all_bodies [] = []
all_bodies (Delivery.header line ∷ ds) = all_bodies ds
all_bodies (Delivery.body chunk ∷ ds) = chunk ++ all_bodies ds

-- The headers of the lines that are delivered, behind those of `hdrs`.
abbrev all_headers : List Delivery → List HttpcHeader → List HttpcHeader
all_headers [] hdrs = hdrs
all_headers (Delivery.header line ∷ ds) hdrs = all_headers ds (header_write_cb line hdrs).1
all_headers (Delivery.body chunk ∷ ds) hdrs = all_headers ds hdrs

-- `Received ds hs`: the headers `hs` are those of the lines among the deliveries `ds`, in order, and
-- a line without a colon has none.
pub data Received : List Delivery → List HttpcHeader → Type 0 where
  end : Received [] []
  body :
      (chunk : Bytes) (ds : List Delivery) (hs : List HttpcHeader)
      → Received ds hs
      → Received (Delivery.body chunk ∷ ds) hs
  field :
      (line : Bytes) (h : HttpcHeader) (ds : List Delivery) (hs : List HttpcHeader)
      → IsField line h
      → Received ds hs
      → Received (Delivery.header line ∷ ds) (h ∷ hs)
  other :
      (line : Bytes) (ds : List Delivery) (hs : List HttpcHeader)
      → NoColon line
      → Received ds hs
      → Received (Delivery.header line ∷ ds) hs

all_headers-Received :
    (ds : List Delivery) (hdrs : List HttpcHeader)
    → (hs : List HttpcHeader) × Received ds hs × (all_headers ds hdrs ≡ hdrs ++ hs)
all_headers-Received [] hdrs = ([], Received.end, sym (append-nil hdrs))
all_headers-Received (Delivery.body chunk ∷ ds) hdrs =
    let (hs, r, e) = all_headers-Received ds hdrs in (hs, Received.body chunk ds hs r, e)
all_headers-Received (Delivery.header line ∷ ds) hdrs =
    let (hs, r, e) = all_headers-Received ds (header_write_cb line hdrs).1 in
    elim (header_write_cb-IsField line hdrs) [
      | inl (h, is_field, joined) ↦ (
        h ∷ hs,
        Received.field line h ds hs is_field r,
        e ∙ ap (λ l. l ++ hs) joined ∙ append_assoc hdrs (h ∷ []) hs,
      )
      | inr (no_colon, kept) ↦
          (hs, Received.other line ds hs no_colon r, e ∙ ap (λ l. l ++ hs) kept)
    ]

header_write_cb-taken :
    (line : Bytes) (hdrs : List HttpcHeader) → (header_write_cb line hdrs).0 ≡ length line
unfolding header_write_cb
header_write_cb-taken line hdrs = elim (Bool-cases (length line == 0)) [
  | inl e ↦ rw e (sym ((==_iff _ _).0 e))
  | inr e ↦ rw e refl
]

same-true : (n : ℕ) → (n == n) ≡ true
same-true n = (==_iff n n).1 refl

-- What the callbacks have collected: the body `s`, the headers, and no short count.
record Kept (s : Bytes) (hdrs : List HttpcHeader) (c : Collected) : Type 0 where
  held : Holds s c.buf
  headers : c.hdrs ≡ hdrs
  complete : c.complete ≡ true

Holds-len : (s : Bytes) (buf : Strbuf) → Holds s buf → buf.len ≡ length s
Holds-len s buf h = sym (length-view buf.len buf.cap buf.block h.valid.shape) ∙ ap length h.text

module _ (heap : Heap) (plenty : (old : Option Bytes) (n : ℕ) → heap.realloc old n ≢ none) where
  deliver-Kept :
      (d : Delivery) (ds : List Delivery) (s : Bytes) (hdrs : List HttpcHeader) (c : Collected)
      → Kept s hdrs c
      → length s + length (all_bodies (d ∷ ds)) < 2 ^ 63
      → (c' : Collected) × (deliver heap d c ≡ done c')
        × Kept (s ++ all_bodies (d ∷ [])) (all_headers (d ∷ []) hdrs) c'
  unfolding deliver
  deliver-Kept (Delivery.header line) ds s hdrs c k h =
      let r = header_write_cb line c.hdrs in
      (
        record c { hdrs = r.1; complete = r.0 == length line },
        refl,
        record {
          held = subst (λ (t : Bytes). Holds t c.buf) (sym (append-nil s)) k.held;
          headers = ap (λ l. (header_write_cb line l).1) k.headers;
          complete =
              ap (λ n. n == length line) (header_write_cb-taken line c.hdrs)
              ∙ same-true (length line);
        },
      )
  deliver-Kept (Delivery.body chunk) ds s hdrs c k h =
      let n = length-append chunk (all_bodies ds) in
      let (q, run, g) =
        body_write_cb-Holds heap plenty chunk c.buf k.held.valid
          (omega (arith, Holds-len s c.buf k.held)) in
      (
        record c { buf = q; complete = length chunk == length chunk },
        rw run refl,
        record {
          held =
              subst (λ (t : Bytes). Holds t q)
                (ap (λ t. t ++ chunk) k.held.text ∙ ap (λ t. s ++ t) (sym (append-nil chunk))) g;
          headers = k.headers;
          complete = same-true (length chunk);
        },
      )

all_bodies-cons :
    (d : Delivery) (ds : List Delivery) → all_bodies (d ∷ ds) ≡ all_bodies (d ∷ []) ++ all_bodies ds
all_bodies-cons (Delivery.header line) ds = refl
all_bodies-cons (Delivery.body chunk) ds = ap (λ t. t ++ all_bodies ds) (sym (append-nil chunk))

all_headers-cons :
    (d : Delivery) (ds : List Delivery) (hdrs : List HttpcHeader)
    → all_headers (d ∷ ds) hdrs ≡ all_headers ds (all_headers (d ∷ []) hdrs)
all_headers-cons (Delivery.header line) ds hdrs = refl
all_headers-cons (Delivery.body chunk) ds hdrs = refl

-- The response of a finished transfer: the bodies one behind the other, the headers that the lines
-- stand for, and the code.
pub record IsResponse (t : Transfer) (r : HttpcResponse) : Type 0 where
  pub body : Holds (all_bodies t.deliveries) r.body
  pub headers : Received t.deliveries r.headers
  pub status : r.status ≡ t.status

module _ (heap : Heap) (plenty : (old : Option Bytes) (n : ℕ) → heap.realloc old n ≢ none) where
  deliver_all-Kept :
      (ds : List Delivery) (s : Bytes) (hdrs : List HttpcHeader) (c : Collected)
      → Kept s hdrs c
      → length s + length (all_bodies ds) < 2 ^ 63
      → (c' : Collected) × (deliver_all heap ds c ≡ done c')
        × Kept (s ++ all_bodies ds) (all_headers ds hdrs) c'
  unfolding deliver_all
  deliver_all-Kept [] s hdrs c k h =
      (c, refl, subst (λ (t : Bytes). Kept t hdrs c) (sym (append-nil s)) k)
  deliver_all-Kept (d ∷ ds) s hdrs c k h =
      let (c', run, k') = deliver-Kept heap plenty d ds s hdrs c k h in
      let n = length-append s (all_bodies (d ∷ [])) in
      let n' =
        ap length (all_bodies-cons d ds) ∙ length-append (all_bodies (d ∷ [])) (all_bodies ds) in
      let (c'', run', k'') =
        deliver_all-Kept ds (s ++ all_bodies (d ∷ [])) (all_headers (d ∷ []) hdrs) c' k'
          (omega arith) in
      (
        c'',
        ap
              (λ o.
                o >>= λ (c' : Collected). (if c'.complete then deliver_all heap ds c' else done c'))
              run
            ∙ ap (λ b. if b then deliver_all heap ds c' else done c') k'.complete
            ∙ run',
        subst (λ (t : Bytes). Kept t (all_headers (d ∷ ds) hdrs) c'')
            (append_assoc s (all_bodies (d ∷ [])) (all_bodies ds)
              ∙ ap (λ t. s ++ t) (sym (all_bodies-cons d ds)))
            (subst (λ l. Kept ((s ++ all_bodies (d ∷ [])) ++ all_bodies ds) l c'')
              (sym (all_headers-cons d ds hdrs)) k''),
      )

  run_transfer_total :
      (t : Transfer)
      → length (all_bodies t.deliveries) < 2 ^ 63
      → (r : HttpcResponse) × (run_transfer heap t ≡ done (status_of true t.code t.status, r))
        × IsResponse t r
  unfolding run_transfer
  run_transfer_total t h =
      let (c, run, k) =
        deliver_all-Kept t.deliveries [] [] nothing_collected
          (record {
            held = record { valid = strbuf_init-IsValid; text = refl };
            headers = refl;
            complete = refl;
          })
          (omega arith) in
      (
        record { status = t.status; body = c.buf; headers = c.hdrs },
        ap
              (λ o. o >>= λ (c : Collected). done (
                status_of c.complete t.code t.status,
                record { status = t.status; body = c.buf; headers = c.hdrs },
              ))
              run
            ∙ ap
                (λ b. done (
                  status_of b t.code t.status,
                  record { status = t.status; body = c.buf; headers = c.hdrs },
                ))
                k.complete,
        record {
          body = k.held;
          headers =
              let (hs, r, e) = all_headers-Received t.deliveries [] in
              subst (λ l. Received t.deliveries l) (sym (k.headers ∙ e)) r;
          status = refl;
        },
      )

  pub httpc_request_total :
      (curl : Curl) (req : HttpcReq) (url : Bytes)
      → curl.ready ≡ true
      → req.url ≡ some url
      → length (all_bodies (curl.perform (setup_of req url)).deliveries) < 2 ^ 63
      → (r : HttpcResponse) × (httpc_request heap curl req
          ≡ done (
            status_of true
                (curl.perform (setup_of req url)).code
                (curl.perform (setup_of req url)).status,
            r,
          ))
        × IsResponse (curl.perform (setup_of req url)) r
  unfolding httpc_request perform_at
  httpc_request_total curl req url ready e h =
      let t = curl.perform (setup_of req url) in
      let (r, run, k) = run_transfer_total t h in
      (
        r,
        ap (perform_at heap curl req) e
            ∙ ap (λ b. if b then run_transfer heap t else done (HttpcStatus.err, no_response)) ready
            ∙ run,
        k,
      )
