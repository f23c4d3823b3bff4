-- ===== src/Buffer/Tests.antt =====
-- Runs of libsponge/util/buffer.cc.
use com_net_sponge.Prelude.{◌≡◌, refl, [], ◌∷◌, none, some}
use com_net_sponge.Buffer.{
  BufferList, of_string, str, size, release, remove_prefix, list_size, to_buffer,
}

abbrev two_parts : BufferList
two_parts = of_string (1 ∷ 2 ∷ []) ∷ of_string (3 ∷ 4 ∷ 5 ∷ []) ∷ []

two_parts_size : list_size two_parts ≡ 5
unfolding list_size size str of_string
two_parts_size = refl

-- A list of several buffers is not converted to one.
two_parts_apart : to_buffer two_parts ≡ none
unfolding to_buffer
two_parts_apart = refl

-- A buffer that is used up gives its storage back.
used_up :
    remove_prefix (of_string (1 ∷ 2 ∷ [])) 2 ≡ some (record { storage = none; starting_offset = 2 })
unfolding remove_prefix release of_string str size
used_up = refl
