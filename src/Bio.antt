-- ===== src/Bio.antt =====
-- kernel/bio.c: the cache of disk blocks. The ring of buffers is the list of them from `head.next`,
-- the most recently used, to `head.prev`, the least recently used; `head` itself is its two ends. The
-- spin lock makes each call one step, up to the point where it sleeps for a buffer's lock.
pub mod Keys
pub mod Lookup
pub mod Reach
use osn_mp2_part_a.Base.{
  ℕ, zero, suc, ◌+◌, ◌-◌, ◌*◌, ◌%◌, ◌^◌, Bool, true, false, not, ◌&&◌, ◌==◌, if◌then◌else◌, Option,
  none, some, List, [], ◌∷◌,
}
use osn_mp2_part_a.Base.Result.{Result, ok, panic, no_buffers, bwrite_unlocked, brelse_unlocked}
use osn_mp2_part_a.Sleeplock.{Sleeplock, initsleeplock, acquiresleep, releasesleep, holdingsleep}
use osn_mp2_part_a.Log.{Block}

abbrev pub nbuf : ℕ
nbuf = 30

-- `struct buf`, with its index in the array for its address.
pub record Buf : Type 0 where
  pub index : ℕ
  pub valid : Bool
  pub dev : ℕ
  pub blockno : ℕ
  pub lock : Sleeplock
  pub refcnt : ℕ
  pub contents : Block

-- The cache, and the disk blocks by device and number that `virtio_disk_rw` reads and writes.
pub record Cache : Type 0 where
  pub bufs : List Buf
  pub disk : ℕ → ℕ → Block

abbrev pub zero_buf : ℕ → Buf
zero_buf i = record {
  index = i;
  valid = false;
  dev = 0;
  blockno = 0;
  lock = initsleeplock;
  refcnt = 0;
  contents = [];
}

-- `binit` puts each buffer in front.
abbrev pub init_bufs : ℕ → List Buf → List Buf
init_bufs zero bs = bs
init_bufs (suc n) bs = zero_buf n ∷ init_bufs n bs

pub binit : (ℕ → ℕ → Block) → Cache
binit d = record { bufs = init_bufs nbuf []; disk = d }

abbrev pub holds : ℕ → ℕ → Buf → Bool
holds dev blockno b = b.dev == dev && b.blockno == blockno

-- The first loop of `bget`: the buffer that holds the block, with one more reference.
unfoldable pub find_cached : ℕ → ℕ → List Buf → Option (ℕ × List Buf)
find_cached dev blockno [] = none
find_cached dev blockno (b ∷ bs) =
    if holds dev blockno b
    then some (b.index, record b { refcnt = (b.refcnt + 1) % 2 ^ 32 } ∷ bs)
    else elim (find_cached dev blockno bs) [ none ↦ none | some (i, rest) ↦ some (i, b ∷ rest) ]

abbrev pub reuse : ℕ → ℕ → Buf → Buf
reuse dev blockno b = record b { dev = dev; blockno = blockno; valid = false; refcnt = 1 }

-- The second loop goes backwards: the last buffer that nobody uses.
unfoldable pub recycle : ℕ → ℕ → List Buf → Option (ℕ × List Buf)
recycle dev blockno [] = none
recycle dev blockno (b ∷ bs) = elim (recycle dev blockno bs) [
  | some (i, rest) ↦ some (i, b ∷ rest)
  | none ↦ if b.refcnt == 0 then some (b.index, reuse dev blockno b ∷ bs) else none
]

-- `bget` up to the lock of the buffer.
unfoldable pub bget : ℕ → ℕ → List Buf → Result (ℕ × List Buf)
bget dev blockno bs = elim (find_cached dev blockno bs) [
  | some r ↦ ok r
  | none ↦ elim (recycle dev blockno bs) [ some r ↦ ok r | none ↦ panic no_buffers ]
]

-- The buffer at an address, and a change of it.
abbrev pub get_buf : ℕ → List Buf → Buf
get_buf i [] = zero_buf i
get_buf i (b ∷ bs) = if b.index == i then b else get_buf i bs

abbrev pub set_buf : ℕ → (Buf → Buf) → List Buf → List Buf
set_buf i f [] = []
set_buf i f (b ∷ bs) = if b.index == i then f b ∷ bs else b ∷ set_buf i f bs

-- Read the block if the buffer is not valid.
abbrev pub load_buf : (ℕ → ℕ → Block) → Buf → Buf
load_buf d b = if b.valid then b else record b { valid = true; contents = d b.dev b.blockno }

-- `bread` after `bget`: `none` where it sleeps for the lock.
unfoldable pub lock_and_load : ℕ → ℕ → Cache → Option Cache
lock_and_load pid i c = elim (acquiresleep pid (get_buf i c.bufs).lock) [
  | none ↦ none
  | some lk ↦
      some (record c { bufs = set_buf i (λ b. load_buf c.disk (record b { lock = lk })) c.bufs })
]

-- The index, and the cache where the lock was free; `none` where it sleeps, to go on with
-- `lock_and_load`. The second cache is what the others see meanwhile.
pub bread : ℕ → ℕ → ℕ → Cache → Result (ℕ × Option Cache × Cache)
unfolding bget lock_and_load
bread pid dev blockno c = elim (bget dev blockno c.bufs) [
  | panic e ↦ panic e
  | ok (i, bs) ↦ ok (i, lock_and_load pid i (record c { bufs = bs }), record c { bufs = bs })
]

unfoldable pub bwrite : ℕ → ℕ → Cache → Result Cache
bwrite pid i c =
    let b = get_buf i c.bufs in
    if not (holdingsleep pid b.lock)
    then panic bwrite_unlocked
    else ok
        (record c { disk = λ d n. if d == b.dev && n == b.blockno then b.contents else c.disk d n })

-- The list without the buffer.
abbrev pub unlink : ℕ → List Buf → List Buf
unlink i [] = []
unlink i (b ∷ bs) = if b.index == i then bs else b ∷ unlink i bs

-- `refcnt--`, and the buffer in front if nobody uses it any more.
unfoldable pub put_back : ℕ → Buf → List Buf → List Buf
put_back i b bs =
    let n = (b.refcnt + 2 ^ 32 - 1) % 2 ^ 32 in
    let released = record b { lock = releasesleep b.lock; refcnt = n } in
    if n == 0 then released ∷ unlink i bs else set_buf i (λ x. released) bs

unfoldable pub brelse : ℕ → ℕ → Cache → Result Cache
brelse pid i c =
    let b = get_buf i c.bufs in
    if not (holdingsleep pid b.lock)
    then panic brelse_unlocked
    else ok (record c { bufs = put_back i b c.bufs })

unfoldable pub bpin : ℕ → List Buf → List Buf
bpin i bs = set_buf i (λ b. record b { refcnt = (b.refcnt + 1) % 2 ^ 32 }) bs

unfoldable pub bunpin : ℕ → List Buf → List Buf
bunpin i bs = set_buf i (λ b. record b { refcnt = (b.refcnt + 2 ^ 32 - 1) % 2 ^ 32 }) bs
