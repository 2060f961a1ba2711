-- ===== src/PosixMonitor.antt =====
-- src/monitor/posix_monitor.cpp and include/lo2s/monitor/posix_monitor.hpp, `PosixMonitor`, with
-- `Trace::posix_io_handle` of src/trace/trace.cpp and include/lo2s/thread_fd_instance.hpp: from the
-- events of the BPF program to I/O operations in the trace. The conversion of time points and the
-- communicator that the registry has for a thread's process are parameters. An event of the union is
-- one record. A `Thread` is its number; the local writers of the threads are one list, newest first.
mod Tests
pub mod Keys
pub mod Begun
pub mod Handle
pub mod Exit
pub mod Pair
pub mod Between
pub mod Bpf
use lo2s.Shared.{
  ℕ, ◌+◌, ℤ, pos, negsuc, Bool, true, false, not, ◌&&◌, ◌||◌, Option, none, some, List, [], ◌∷◌,
  ltb, ◌==◌, ltb_ℤ, eq_ℤ, if◌then◌else◌, Result, ok, lookup, assign, ◌>>=◌,
}

-- `enum type`
pub data PosixType : Type 0 where
  open_file close_file read_enter read_exit write_enter write_exit : PosixType

-- `posix_event_header`, and what `open_event` and `read_write_event` have behind it.
pub record PosixEvent : Type 0 where
  pub type : PosixType
  pub time : ℕ
  pub pid : ℕ
  pub fd : ℤ
  pub filename : List ℕ
  pub buf : ℕ
  pub count : ℕ

pub record ThreadFd : Type 0 where
  pub fd : ℤ
  pub thread : ℕ

-- `operator<` of `ThreadFd`
unfoldable pub thread_fd_lt : ThreadFd → ThreadFd → Bool
thread_fd_lt a b = if eq_ℤ a.fd b.fd then ltb a.thread b.thread else ltb_ℤ a.fd b.fd

pub record ThreadFdInstance : Type 0 where
  pub thread : ℕ
  pub fd : ℤ
  pub instance_of : ℕ

-- `operator==` of `ThreadFdInstance`
unfoldable pub same_instance : ThreadFdInstance → ThreadFdInstance → Bool
same_instance a b = a.thread == b.thread && eq_ℤ a.fd b.fd && a.instance_of == b.instance_of

pub data AccessMode : Type 0 where
  read_only write_only : AccessMode

-- What `posix_io_handle` makes in the registry.
pub record IoHandle : Type 0 where
  pub id : ThreadFdInstance
  pub name : List ℕ
  pub comm : ℕ

pub data OperationMode : Type 0 where
  read_mode write_mode : OperationMode

pub data PosixIo : Type 0 where
  io_create_handle : (tp : ℕ) (handle : ThreadFdInstance) → PosixIo
  io_destroy_handle : (tp : ℕ) (handle : ThreadFdInstance) → PosixIo
  io_operation_begin :
      (tp : ℕ) (handle : ThreadFdInstance) (mode : OperationMode) (count buf : ℕ) → PosixIo
  io_operation_complete : (tp : ℕ) (handle : ThreadFdInstance) (count buf : ℕ) → PosixIo

pub record PosixMonitor : Type 0 where
  pub last_fd : List (ℕ × ℤ)
  pub last_count : List (ℕ × ℕ)
  pub last_buf : List (ℕ × ℕ)
  pub instances : List (ThreadFd × ℕ)
  pub handles : List IoHandle
  pub pre_created : List (ThreadFdInstance × AccessMode)
  pub written : List PosixIo

-- The keys that a `std::map` takes for one.
abbrev pub same_key : ThreadFd → ThreadFd → Bool
same_key a b = not (thread_fd_lt a b) && not (thread_fd_lt b a)

-- `instance_.find (k)` and `instance_[k] = n`
abbrev pub find : ThreadFd → List (ThreadFd × ℕ) → Option ℕ
find k [] = none
find k ((j, n) ∷ m) = let later = find k m in if same_key j k then some n else later

abbrev pub put_instance : ThreadFd → ℕ → List (ThreadFd × ℕ) → List (ThreadFd × ℕ)
put_instance k n [] = (k, n) ∷ []
put_instance k n ((j, i) ∷ m) =
    let later = put_instance k n m in if same_key j k then (j, n) ∷ m else (j, i) ∷ later

-- A map's `[]`, read: 0 where there is no entry.
abbrev pub number_at : Option ℕ → ℕ
number_at none = 0
number_at (some n) = n

abbrev pub fd_at : Option ℤ → ℤ
fd_at none = pos 0
fd_at (some fd) = fd

abbrev pub thread_fd : PosixEvent → ThreadFd
thread_fd e = record { fd = e.fd; thread = e.pid }

-- `instance_[k]`, which makes the entry. Whether one is there counts for the next `open`.
unfoldable pub touch : ThreadFd → PosixMonitor → PosixMonitor
touch k m = elim (find k m.instances) [
  | none ↦ record m { instances = put_instance k 0 m.instances }
  | some n ↦ m
]

-- The number of times that the file descriptor was given out again; as an `int` it has room for
-- 2 ^ 31 of them.
unfoldable pub reuse : ThreadFd → PosixMonitor → PosixMonitor
reuse k m = elim (find k m.instances) [
  | none ↦ record m { instances = put_instance k 0 m.instances }
  | some n ↦ record m { instances = put_instance k (n + 1) m.instances }
]

abbrev pub handle_of : ThreadFd → PosixMonitor → ThreadFdInstance
handle_of k m = record {
  thread = k.thread;
  fd = k.fd;
  instance_of = number_at (find k m.instances);
}

-- stdin, stdout and stderr
unfoldable pub standard_name : ℤ → List ℕ
standard_name fd =
    if eq_ℤ fd (pos 0)
    then b's' ∷ b't' ∷ b'd' ∷ b'i' ∷ b'n' ∷ []
    else if eq_ℤ fd (pos 1)
    then b's' ∷ b't' ∷ b'd' ∷ b'o' ∷ b'u' ∷ b't' ∷ []
    else if eq_ℤ fd (pos 2)
    then b's' ∷ b't' ∷ b'd' ∷ b'e' ∷ b'r' ∷ b'r' ∷ []
    else []

unfoldable pub is_known : ThreadFdInstance → List IoHandle → Bool
is_known id [] = false
is_known id (h ∷ hs) = same_instance h.id id || is_known id hs

unfoldable pub define_handle : ThreadFdInstance → List ℕ → ℕ → PosixMonitor → PosixMonitor
define_handle id name comm m = record m {
  handles = record { id = id; name = name; comm = comm } ∷ m.handles;
  pre_created =
      if ltb_ℤ id.fd (pos 3)
      then (id, if eq_ℤ id.fd (pos 0) then read_only else write_only) ∷ m.pre_created
      else m.pre_created;
}

-- `insert_thread` after the change of the BPF map.
unfoldable pub forget_call : ℕ → PosixMonitor → PosixMonitor
forget_call thread m = record m { last_fd = assign thread (negsuc 0) m.last_fd }

abbrev pub emit : PosixIo → PosixMonitor → PosixMonitor
emit io m = record m { written = io ∷ m.written }

-- What an enter leaves for the exit, which does not know it.
unfoldable pub cache_call : PosixEvent → PosixMonitor → PosixMonitor
cache_call e m = record m {
  last_fd = assign e.pid e.fd m.last_fd;
  last_buf = assign e.pid e.buf m.last_buf;
  last_count = assign e.pid e.count m.last_count;
}

module _ (convert : ℕ → ℕ) (comm_of : ℕ → Result ℕ) where
  -- `Trace::posix_io_handle`
  unfoldable pub posix_io_handle : ThreadFdInstance → List ℕ → PosixMonitor → Result PosixMonitor
  posix_io_handle id name m = elim (is_known id m.handles) [
    | true ↦ ok m
    | false ↦ comm_of id.thread >>= λ comm. ok (define_handle id name comm m)
  ]

  -- The branches of `handle_event`.
  unfoldable pub handle_open : PosixEvent → PosixMonitor → Result PosixMonitor
  handle_open e m =
      let name = if ltb_ℤ e.fd (pos 3) then standard_name e.fd else e.filename in
      let opened = reuse (thread_fd e) m in
      posix_io_handle (handle_of (thread_fd e) opened) name opened >>= λ m'.
      ok (emit (io_create_handle (convert e.time) (handle_of (thread_fd e) opened)) m')

  unfoldable pub handle_close : PosixEvent → PosixMonitor → Result PosixMonitor
  handle_close e m =
      let found = touch (thread_fd e) m in
      posix_io_handle (handle_of (thread_fd e) found) (standard_name e.fd) found >>= λ m'.
      ok (emit (io_destroy_handle (convert e.time) (handle_of (thread_fd e) found)) m')

  unfoldable pub handle_enter_rw : OperationMode → PosixEvent → PosixMonitor → Result PosixMonitor
  handle_enter_rw mode e m =
      let found = touch (thread_fd e) (cache_call e m) in
      posix_io_handle (handle_of (thread_fd e) found) (standard_name e.fd) found >>= λ m'. ok (
        emit
          (io_operation_begin (convert e.time) (handle_of (thread_fd e) found) mode e.count e.buf)
          m')

  -- The name is that of the exit's own file descriptor.
  unfoldable pub handle_exit_rw : PosixEvent → PosixMonitor → Result PosixMonitor
  handle_exit_rw e m =
      let fd = fd_at (lookup e.pid m.last_fd) in
      elim (eq_ℤ fd (negsuc 0)) [
        | true ↦ ok m
        | false ↦
            let k : ThreadFd = record { fd = fd; thread = e.pid } in
            let found = touch k m in
            posix_io_handle (handle_of k found) (standard_name e.fd) found >>= λ m'. ok (record m' {
              written =
                  io_operation_complete (convert e.time) (handle_of k found)
                    (number_at (lookup e.pid m.last_count)) (number_at (lookup e.pid m.last_buf))
                  ∷ m'.written;
              last_fd = assign e.pid (negsuc 0) m.last_fd;
            })
      ]

  unfoldable pub handle_posix_event : PosixEvent → PosixMonitor → Result PosixMonitor
  handle_posix_event e m = elim e.type [
    | open_file ↦ handle_open e m
    | close_file ↦ handle_close e m
    | read_enter ↦ handle_enter_rw read_mode e m
    | write_enter ↦ handle_enter_rw write_mode e m
    | read_exit ↦ handle_exit_rw e m
    | write_exit ↦ handle_exit_rw e m
  ]

  unfoldable pub handle_posix_events : List PosixEvent → PosixMonitor → Result PosixMonitor
  handle_posix_events [] m = ok m
  handle_posix_events (e ∷ es) m = handle_posix_event e m >>= handle_posix_events es
