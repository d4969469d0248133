-- ===== src/Protocol/PacketNumber/Tests.antt =====
-- The example of RFC 9000, appendix A.3, and the theorems at concrete numbers.
use x_fec.Base.{◌%◌, ◌≡◌, refl, arith}
use x_fec.Protocol.PacketNumber.{epoch_size, decode_packet_number, packet_number_length_for_header}
use x_fec.Protocol.PacketNumber.Decode.{decode_packet_number_lem}

decode_packet_number_a82f30ea : decode_packet_number 2 0xa82f30ea 0x9b32 ≡ 0xa82f9b32
unfolding decode_packet_number x_fec.Protocol.PacketNumber.decode_in
    x_fec.Protocol.PacketNumber.closest_to x_fec.Protocol.PacketNumber.delta
    x_fec.Protocol.PacketNumber.epoch_begin epoch_size
decode_packet_number_a82f30ea = refl

decode_packet_number_lem_example :
    decode_packet_number 2 0xa82f30ea (0xa82f9b32 % epoch_size 2) ≡ 0xa82f9b32
decode_packet_number_lem_example =
    decode_packet_number_lem 2 0xa82f30ea 0xa82f9b32 (omega arith) (omega arith)
      (unfold epoch_size in omega arith)
