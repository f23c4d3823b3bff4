-- ===== src/FileDescriptor.antt =====
-- libsponge/util/file_descriptor.hh and file_descriptor.cc, with SystemCall of libsponge/util/util.cc and
-- Socket::shutdown of libsponge/util/socket.cc. What the system answers to a call is an argument. `none` is
-- an exception, thrown before the descriptor has changed.
pub mod Laws
mod Tests
use com_net_sponge.Prelude.{
  ℕ, ◌+◌, ◌*◌, Bool, true, false, not, ◌&&◌, ltb, ◌==◌, if◌then◌else◌, List, [], ◌∷◌, ◌++◌, length,
  take, min, Option, none, some,
}
use com_net_sponge.Prelude.Words.{add32, add64}
use com_net_sponge.Buffer.{BufferViewList, remove_view_prefix, view_size}
use com_net_sponge.Buffer.Lists.{flat}

-- `FDWrapper`, which all duplicates of a descriptor share.
pub record FdWrapper : Type 0 where
  pub fd : ℕ
  pub eof : Bool
  pub closed : Bool
  pub read_count : ℕ
  pub write_count : ℕ

-- What the system returns: an error number, or a result that is not negative.
pub data Answer : Type 0 where
  failed : ℕ → Answer
  returned : ℕ → Answer

-- `SystemCall` with no error number that is accepted: it throws on any error.
unfoldable pub system_call : Answer → Option ℕ
system_call (failed errno) = none
system_call (returned n) = some n

-- The constructor from the number that a call returned.
unfoldable pub new : Answer → Option FdWrapper
new (failed errno) = none
new (returned n) =
    some (record { fd = n; eof = false; closed = false; read_count = 0; write_count = 0 })

unfoldable pub close : FdWrapper → Answer → Option FdWrapper
close f answer = elim (system_call answer) [
  | none ↦ none
  | some n ↦ some (record f { eof = true; closed = true })
]

-- The destructor closes what is not closed, and ignores an exception.
unfoldable pub destroy : FdWrapper → Answer → FdWrapper
unfolding close system_call
destroy f answer = if f.closed then f else elim (close f answer) [ none ↦ f | some f' ↦ f' ]

unfoldable pub register_read : FdWrapper → FdWrapper
register_read f = record f { read_count = add32 f.read_count 1 }

unfoldable pub register_write : FdWrapper → FdWrapper
register_write f = record f { write_count = add32 f.write_count 1 }

-- What a `read` of the system gives: an error number, or bytes.
pub data ReadAnswer : Type 0 where
  read_failed : ℕ → ReadAnswer
  gave : List ℕ → ReadAnswer

abbrev pub buffer_size : ℕ
buffer_size = 1024 * 1024

-- `read` after the system has read some bytes.
unfoldable pub read_bytes : FdWrapper → ℕ → List ℕ → Option (FdWrapper × List ℕ)
unfolding register_read
read_bytes f limit bytes =
    let f' : FdWrapper =
      if ltb 0 limit && (length bytes == 0) then record f { eof = true } else f in
    if ltb (min buffer_size limit) (length bytes) then none else some (register_read f', bytes)

unfoldable pub read : FdWrapper → ℕ → ReadAnswer → Option (FdWrapper × List ℕ)
unfolding read_bytes
read f limit (read_failed errno) = none
read f limit (gave bytes) = read_bytes f limit bytes

-- How `write` ends, with the bytes that the system has taken: it returns their number, it throws, or it
-- waits for an answer of the system that does not come.
pub data WriteResult : Type 0 where
  wrote : FdWrapper → List ℕ → ℕ → WriteResult
  threw : FdWrapper → List ℕ → WriteResult
  blocked : FdWrapper → List ℕ → WriteResult

-- The loop of `write`, over the answers to its calls of `writev`: the views that are left, the bytes taken
-- so far, and `total_bytes_written`.
unfoldable pub write_loop :
    Bool → List Answer → FdWrapper → BufferViewList → List ℕ → ℕ → WriteResult
write_loop write_all [] f views sent total = blocked f sent
write_loop write_all (failed errno ∷ answers) f views sent total = threw f sent
write_loop write_all (returned n ∷ answers) f views sent total =
    let f' : FdWrapper = register_write f in
    let sent' : List ℕ = sent ++ take n (flat views) in
    let total' : ℕ = add64 total n in
    let next = λ (views' : BufferViewList). write_loop write_all answers f' views' sent' total' in
    let removed : WriteResult = elim (remove_view_prefix views n) [
      | none ↦ threw f' sent'
      | some views' ↦ elim (write_all && not (view_size views' == 0)) [
        | true ↦ next views'
        | false ↦ wrote f' sent' total'
      ]
    ] in
    if (n == 0) && not (view_size views == 0)
    then threw f sent
    else if ltb (view_size views) n
    then threw f sent
    else removed

unfoldable pub write : FdWrapper → List ℕ → Bool → List Answer → WriteResult
unfolding write_loop
write f bytes write_all answers = write_loop write_all answers f (bytes ∷ []) [] 0

-- What can be shut down; no other value is ever passed.
pub data How : Type 0 where
  shut_rd shut_wr shut_rdwr : How

-- The counters after `Socket::shutdown`.
unfoldable pub shut : FdWrapper → How → FdWrapper
unfolding register_read register_write
shut f shut_rd = register_read f
shut f shut_wr = register_write f
shut f shut_rdwr = register_write (register_read f)

unfoldable pub shutdown : FdWrapper → How → Answer → Option FdWrapper
unfolding system_call
shutdown f how answer = elim (system_call answer) [ none ↦ none | some n ↦ some (shut f how) ]
