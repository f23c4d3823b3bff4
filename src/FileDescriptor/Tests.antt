-- ===== src/FileDescriptor/Tests.antt =====
-- Runs of libsponge/util/file_descriptor.cc.
use com_net_sponge.Prelude.{false, true, ◌≡◌, refl, List, [], ◌∷◌, arith}
use com_net_sponge.Buffer.{view_size, remove_view_prefix}
use com_net_sponge.FileDescriptor.{
  FdWrapper, Answer, failed, returned, wrote, threw, register_write, write,
}
use com_net_sponge.FileDescriptor.Laws.{Whole, write-Whole}

abbrev device : FdWrapper
device = record { fd = 5; eof = false; closed = false; read_count = 0; write_count = 0 }

abbrev pieces : List Answer
pieces = returned 2 ∷ returned 1 ∷ failed 5 ∷ failed 5 ∷ []

-- Three bytes in two calls.
in_pieces :
    write device (7 ∷ 8 ∷ 9 ∷ []) true pieces
    ≡ wrote (record device { write_count = 2 }) (7 ∷ 8 ∷ 9 ∷ []) 3
unfolding write register_write view_size remove_view_prefix
in_pieces = refl

-- A call that takes nothing.
stuck :
    write device (7 ∷ 8 ∷ []) true (returned 1 ∷ returned 0 ∷ [])
    ≡ threw (record device { write_count = 1 }) (7 ∷ [])
unfolding write register_write view_size remove_view_prefix
stuck = refl

write-Whole_example : Whole (7 ∷ 8 ∷ 9 ∷ []) (write device (7 ∷ 8 ∷ 9 ∷ []) true pieces)
write-Whole_example = write-Whole device (7 ∷ 8 ∷ 9 ∷ []) pieces (omega arith) (omega arith)
