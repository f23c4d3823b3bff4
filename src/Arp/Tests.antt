-- ===== src/Arp/Tests.antt =====
-- Runs of libsponge/tcp_helpers/arp_message.cc.
use com_net_sponge.Prelude.{ℕ, ◌≡◌, refl, true, false, List, [], ◌∷◌, some, arith}
use com_net_sponge.Arp.{ArpMessage, default_message, opcode_request, supported, parse, serialize}
use com_net_sponge.Arp.RoundTrip.{IsMessage, parse-serialize_message}
use com_net_sponge.Buffer
use com_net_sponge.NetParser.{no_error}

abbrev who_has : ArpMessage
who_has = record default_message {
  opcode = opcode_request;
  sender_ethernet_address = 2 ∷ 0 ∷ 0 ∷ 0 ∷ 0 ∷ 1 ∷ [];
  sender_ip_address = 167837953;
  target_ip_address = 167837954;
}

who_has-IsMessage : IsMessage who_has
who_has-IsMessage = record {
  hardware_type_fits = omega arith;
  protocol_type_fits = omega arith;
  hardware_size_fits = omega arith;
  protocol_size_fits = omega arith;
  opcode_fits = omega arith;
  sender_fits = (refl, omega arith);
  sender_ip_fits = omega arith;
  target_fits = (refl, omega arith);
  target_ip_fits = omega arith;
}

who_has-supported : supported who_has ≡ true
unfolding supported
who_has-supported = refl

parse-serialize_message_example :
    (bytes : List ℕ) × (serialize who_has ≡ some bytes)
    × (parse (Buffer.of_string bytes) ≡ (who_has, no_error))
parse-serialize_message_example =
    parse-serialize_message who_has who_has-IsMessage who_has-supported

-- An opcode that is neither a request nor a reply.
abbrev strange : ArpMessage
strange = record who_has { opcode = 3 }

strange-IsMessage : IsMessage strange
strange-IsMessage = record {
  hardware_type_fits = omega arith;
  protocol_type_fits = omega arith;
  hardware_size_fits = omega arith;
  protocol_size_fits = omega arith;
  opcode_fits = omega arith;
  sender_fits = (refl, omega arith);
  sender_ip_fits = omega arith;
  target_fits = (refl, omega arith);
  target_ip_fits = omega arith;
}

strange-supported : supported strange ≡ false
unfolding supported
strange-supported = refl
