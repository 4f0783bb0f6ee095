-- ===== src/Thread.antt =====
-- include/Thread.h, src/Thread.cc, include/CurrentThread.h and src/CurrentThread.cc: a thread, its
-- name, and the number of threads made so far, which is read again behind the increment. What the
-- system does in `std::thread` and `gettid` is a step or an argument.
pub mod Handshake
pub mod Names
mod Examples
use echo_server.Prelude.{
  ℕ, ◌+◌, ◌≡◌, Bool, true, false, not, ◌&&◌, List, [], ◌∷◌, ◌++◌, Option, none, some, if◌then◌else◌,
  take, ◌==◌,
}
use echo_server.Decimal.{decimal}

pub record Thread : Type 0 where
  pub started : Bool
  pub joined : Bool
  pub tid : ℕ
  pub name : List ℕ

-- `numCreated_.load()` is `created`. "Thread%d" fits into 32 bytes.
unfoldable pub set_default_name : ℕ → Thread → Thread
set_default_name created t = elim t.name [
  | [] ↦ record t { name = take 31 (b'T' ∷ b'h' ∷ b'r' ∷ b'e' ∷ b'a' ∷ b'd' ∷ decimal created) }
  | c ∷ cs ↦ t
]

-- The constructor, with the count before and after it, where no other thread makes one meanwhile.
unfoldable pub init : List ℕ → ℕ → Thread × ℕ
unfolding set_default_name
init name created = (
  set_default_name (created + 1) (record { started = false; joined = false; tid = 0; name = name }),
  created + 1,
)

-- The destructor: whether the thread is detached.
unfoldable pub destroy : Thread → Bool
destroy t = t.started && not t.joined

unfoldable pub join : Thread → Thread
join t = record t { joined = true }

-- `CurrentThread::tid()`: what is cached before and after, and how often the system was asked.
unfoldable pub cache_tid : ℕ → ℕ → ℕ × ℕ
cache_tid gettid cached = if cached == 0 then (gettid, 1) else (cached, 0)

unfoldable pub current_tid : ℕ → ℕ → ℕ × ℕ
unfolding cache_tid
current_tid gettid cached = if cached == 0 then cache_tid gettid cached else (cached, 0)

-- `start()`. The owner makes the semaphore and the thread, waits, and destroys the semaphore; the
-- new thread stores its id, posts, and calls the function.
pub data Owner : Type 0 where
  idle prepared waiting woken returned : Owner

pub data Child : Type 0 where
  unborn born has_tid posted : Child

-- The semaphore has a value while it lives.
pub record System : Type 0 where
  pub thread : Thread
  pub owner : Owner
  pub child : Child
  pub sem : Option ℕ

unfoldable pub begin : Thread → System
begin t = record { thread = t; owner = idle; child = unborn; sem = none }

-- `id` is what `gettid` says in the new thread.
pub data Step (id : ℕ) : System → System → Type 0 where
  prepare :
      (s : System)
      → s.owner ≡ idle
      → Step id s
          (record s { thread = record s.thread { started = true }; owner = prepared; sem = some 0 })
  create :
      (s : System) → s.owner ≡ prepared → Step id s (record s { owner = waiting; child = born })
  store_tid :
      (s : System)
      → s.child ≡ born
      → Step id s (record s { thread = record s.thread { tid = id }; child = has_tid })
  post :
      (s : System) (n : ℕ)
      → s.child ≡ has_tid
      → s.sem ≡ some n
      → Step id s (record s { child = posted; sem = some (n + 1) })
  wait :
      (s : System) (n : ℕ)
      → s.owner ≡ waiting
      → s.sem ≡ some (n + 1)
      → Step id s (record s { owner = woken; sem = some n })
  destroy_sem :
      (s : System) → s.owner ≡ woken → Step id s (record s { owner = returned; sem = none })

pub data Reach (id : ℕ) (t : Thread) : System → Type 0 where
  here : Reach id t (begin t)
  next : {s u : System} → Reach id t s → Step id s u → Reach id t u
