-- ===== src/Node/Console/Tests.antt =====
-- A line for friend 1, who later asks for it again, and the theorem applied there.
use tox_relayer.Prelude.{ℕ, refl, List, arith}
use tox_relayer.Prelude.Int.{pos}
use tox_relayer.Text.{str_eq, has_byte, print_long, print_04d, digits, digits_loop}
use tox_relayer.Telegram.Serial.{sn_valid, sn_next}
use tox_relayer.Telegram.Encode.{
  encode_text, write_text, encode_cmd, write_cmd, cmd_request, buf_init, buf_put, put_keys,
  put_body, finish, field_ok, body_ok, scan_body, ends_record, text_meta,
}
use tox_relayer.Queue.{init, set_change_hook}
use tox_relayer.Queue.Bag.{Added}
use tox_relayer.Friends.{friend_number_valid}
use tox_relayer.Node.Relaying.{relayed}
use tox_relayer.Node.Console.{send_line}
use tox_relayer.Node.Console.Replay.{asked, send_line-relayed}
use tox_relayer.Node.Tests.{
  two_slots, two_slots-IsConfig, sqlite, world, node, queue, queue-IsQueue, line, wire_size,
}

send_line-relayed_example :
    let n' = send_line world wire_size line node in
    let raw = (asked world two_slots-IsConfig wire_size 33 line node 1373).out in
    let n'' = (relayed two_slots sqlite (pos 200) (pos 1) raw n').0 in
    (bytes : List ℕ) × Added queue n'.queue (pos 1) bytes × Added n'.queue n''.queue (pos 1) bytes
unfolding encode_text write_text encode_cmd write_cmd cmd_request buf_init buf_put put_keys put_body
    finish field_ok body_ok scan_body ends_record text_meta sn_valid sn_next has_byte str_eq
    print_long print_04d digits digits_loop set_change_hook init friend_number_valid
send_line-relayed_example =
    send_line-relayed world two_slots-IsConfig wire_size 33 line node refl refl refl (omega arith)
      (omega arith) refl refl refl refl tt (pos 200) 1373 26 refl refl refl refl queue-IsQueue
      (omega arith)
