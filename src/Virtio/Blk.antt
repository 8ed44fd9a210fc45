-- ===== src/Virtio/Blk.antt =====
-- runtime/virtio/blk-device.ts: virtio-blk over an image, with the dirty bitmap of a writable disk.
-- The state is the queue, the image and what the host sees: the calls of `onDirty` and the
-- interrupts, counted. Offsets into the image are exact: a Number that is rounded is far beyond any
-- image, on either side of the test.
pub mod Data
pub mod Journal
pub mod Returns
pub mod Served
pub mod Answer
use nix_wasm.Prelude.{ℕ, zero, suc, ◌+◌, ◌-◌, ◌*◌, ◌/◌, ◌%◌, ◌^◌, List, [], ◌∷◌, Bool, true, false}
use nix_wasm.Prelude.{Option, none, some, not, ◌&&◌, ltb, ◌==◌, if◌then◌else◌, length, take, drop}
use nix_wasm.Prelude.{overwrite, get_elem?}
use nix_wasm.Prelude.Bytes.{le_bytes, from_le}
use nix_wasm.Prelude.Number.{to_number}
use nix_wasm.Virtio.Disk.{sector_size, mark_dirty}
use nix_wasm.Virtio.Machine.{M, Queue, Result, ok, ◌>>=◌, ◌>>◌, pure, read_bytes, write_bytes}
use nix_wasm.Virtio.Vring.{Layout, Segment, Chain, next_chain, push_used}

abbrev pub t_in : ℕ
t_in = 0

abbrev pub t_out : ℕ
t_out = 1

abbrev pub t_flush : ℕ
t_flush = 4

abbrev pub s_ok : ℕ
s_ok = 0

abbrev pub s_ioerr : ℕ
s_ioerr = 1

abbrev pub s_unsupp : ℕ
s_unsupp = 2

pub record Config : Type 0 where
  pub layout : Layout
  pub read_only : Bool

pub record Blk : Type 0 where
  pub queue : Queue
  pub image : List ℕ
  pub dirty : Option (List ℕ)
  -- Whether the bitmap is in a SharedArrayBuffer.
  pub shared : Bool
  pub dirty_calls : ℕ
  pub irqs : ℕ

-- 1n << 32n for a modern device, 1n << 5n for one that is read-only.
pub features : Config → ℕ
features c = 2 ^ 32 + (if c.read_only then 2 ^ 5 else 0)

-- The u64 capacity in sectors at offset 0, and zeros behind it: `n` bytes from `offset` on.
pub config_read : List ℕ → ℕ → ℕ → List ℕ
config_read image offset zero = []
config_read image offset (suc n) =
    let src = get_elem? (le_bytes 8 (length image / sector_size)) offset in
    (elim src [ none ↦ 0 | some b ↦ b ]) ∷ config_read image (offset + 1) n

abbrev pub on_queue {ℓ} : {A : Type ℓ} → M Queue A → M Blk A
on_queue m s = let r = m s.queue in (r.0, record s { queue = r.1 })

-- The loop of T_IN, from `pos` in the image: the status, and how many bytes are written.
unfoldable pub read_data : ℕ → ℕ → List Segment → M Blk (ℕ × ℕ)
read_data pos written [] s = (ok (s_ok, written), s)
read_data pos written (seg ∷ segs) s =
    let rest = read_data (pos + seg.len) (written + seg.len) segs in
    let copy = do on_queue (write_bytes seg.addr (take seg.len (drop pos s.image))); rest
    in if ltb (length s.image) (pos + seg.len) then (ok (s_ioerr, written), s) else copy s

abbrev pub set_image : ℕ → List ℕ → M Blk (Unit {0})
set_image pos src s = (ok tt, record s { image = overwrite s.image pos src })

-- The loop of T_OUT: the status, and how many bytes went to the image.
unfoldable pub write_data : ℕ → ℕ → List Segment → M Blk (ℕ × ℕ)
write_data pos bytes [] s = (ok (s_ok, bytes), s)
write_data pos bytes (seg ∷ segs) s =
    let rest = write_data (pos + seg.len) (bytes + seg.len) segs in
    let copy = do src ← on_queue (read_bytes seg.addr seg.len); set_image pos src; rest
    in if ltb (length s.image) (pos + seg.len) then (ok (s_ioerr, bytes), s) else copy s

abbrev pub ceil_div : ℕ → ℕ → ℕ
ceil_div n d = (n + (d - 1)) / d

-- A step on the bitmap, if there is one.
abbrev pub on_bitmap : Option (List ℕ) → M (List ℕ) (Unit {0}) → M Blk (Unit {0})
on_bitmap none m s = (ok tt, s)
on_bitmap (some bitmap) m s = let r = m bitmap in (r.0, record s { dirty = some r.1 })

abbrev pub count_call : M Blk (Unit {0})
count_call s = (ok tt, record s { dirty_calls = s.dirty_calls + 1 })

-- `if (dirtyBitmap) markDirty(...); onDirty?.()`
abbrev pub journal : ℕ → ℕ → M Blk (Unit {0})
journal sector bytes s =
    (on_bitmap s.dirty (mark_dirty s.shared sector (ceil_div bytes sector_size)) >> count_call) s

-- The branch T_OUT of a writable device: its status.
unfoldable pub serve_write : ℕ → List Segment → M Blk ℕ
unfolding write_data
serve_write sector segs = do
  r ← write_data (sector * sector_size) 0 segs
  if r.0 == s_ok && ltb 0 r.1 then (do journal sector r.1; pure r.0) else pure r.0

-- The branches on the request's type: the status, and the bytes written to the guest.
unfoldable pub serve : Config → ℕ → ℕ → List Segment → List Segment → M Blk (ℕ × ℕ)
unfolding read_data serve_write
serve c type sector outs ins =
    if type == t_in
    then read_data (sector * sector_size) 0 ins
    else if type == t_out
    then (if c.read_only
        then pure (s_unsupp, 0)
        else do status ← serve_write sector outs; pure (status, 0))
    else if type == t_flush
    then pure ((if c.read_only then s_unsupp else s_ok), 0)
    else pure (s_unsupp, 0)

-- The last of the segments, and those before it.
abbrev pub last_segment : Segment → List Segment → Segment
last_segment s [] = s
last_segment s (t ∷ segs) = last_segment t segs

abbrev pub but_last : Segment → List Segment → List Segment
but_last s [] = []
but_last s (t ∷ segs) = s ∷ but_last t segs

-- A chain with a header and a status segment: `header` reads the 16 bytes that a DataView spans.
unfoldable pub serve_chain :
    Config → ℕ → Segment → List Segment → Segment → List Segment → M Blk (Unit {0})
unfolding serve
serve_chain c head hdr outs in_first in_rest = do
  header ← on_queue (read_bytes hdr.addr 16)
  let type = from_le (take 4 header)
  let sector = to_number (from_le (take 8 (drop 8 header)))
  r ← serve c type sector outs (but_last in_first in_rest)
  on_queue (write_bytes (last_segment in_first in_rest).addr (r.0 ∷ []))
  on_queue (push_used c.layout head (r.1 + 1))

abbrev by_segments : Config → ℕ → List Segment → List Segment → M Blk (Unit {0})
by_segments c head [] ins = on_queue (push_used c.layout head 0)
by_segments c head (o ∷ outs) [] = on_queue (push_used c.layout head 0)
by_segments c head (o ∷ outs) (i ∷ ins) = serve_chain c head o outs i ins

-- `_service`: a chain without a readable or a writable segment is given back unserved.
unfoldable pub service : Config → Chain → M Blk (Unit {0})
unfolding serve_chain
service c chain = by_segments c chain.head chain.outs chain.ins

abbrev raise_irq : M Blk (Unit {0})
raise_irq s = (ok tt, record s { irqs = s.irqs + 1 })

-- The loop of `onNotify` on fuel: `none` means that the fuel ran out.
unfoldable pub drain : ℕ → Config → ℕ → M Blk (Option ℕ)
unfolding service
drain zero c serviced = pure none
drain (suc fuel) c serviced = do
  chain ← on_queue (next_chain c.layout)
  elim chain [
    | none ↦ pure (some serviced)
    | some ch ↦ do service c ch; drain fuel c (serviced + 1)
  ]

-- One interrupt, if any chain was served. A kick moves the cursor at most 2 ^ 16 - 1 times unless the
-- guest or the chains themselves expose more, so the fuel is the caller's.
unfoldable pub on_notify : ℕ → Config → M Blk (Option ℕ)
unfolding drain
on_notify fuel c = do
  served ← drain fuel c 0
  elim served [
    | none ↦ pure none
    | some zero ↦ pure (some 0)
    | some (suc n) ↦ do raise_irq; pure (some (suc n))
  ]
