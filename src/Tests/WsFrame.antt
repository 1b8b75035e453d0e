-- ===== src/Tests/WsFrame.antt =====
-- src/svc/stt/stt_ws_frame.c at concrete frames, and the worked example of RFC 6455, section 1.3.
use subtitle_overlay_fw.Base.{
  ℕ, ◌+◌, ◌*◌, ◌/◌, ◌<◌, ◌≤◌, ◌≡◌, ◌⊎◌, inl, refl, true, some, List, [], ◌∷◌, ◌++◌, ok, err,
  enobufs, eagain, arith, length,
}
use subtitle_overlay_fw.Base.Int.{pos}
use subtitle_overlay_fw.Stt.WsFrame.Encode.{encode, header_size}
use subtitle_overlay_fw.Stt.WsFrame.Encode.ReadBack.{rfc_read, encode_reads_back}
use subtitle_overlay_fw.Stt.WsFrame.Decode.{decode, decode_bytes, read_header, finish}
use subtitle_overlay_fw.Stt.WsFrame.Decode.Bounds.{decode_bounds, InBuffer}
use subtitle_overlay_fw.Stt.WsFrame.Decode.Stable.{Extends, decode_stable}
use subtitle_overlay_fw.Stt.WsFrame.Decode.ServerFrame.{
  server_frame, decoded, decode-server_frame, decode-prefix, IsLegal,
}
use subtitle_overlay_fw.Stt.WsFrame.Base64.{base64_encode}
use subtitle_overlay_fw.Stt.WsFrame.Base64.RoundTrip.{rfc_decode, base64_encode-rfc_decode}
use subtitle_overlay_fw.Stt.WsFrame.Sha1.{sha1_init, sha1_update, sha1_final, sha1_compress, pad}
use subtitle_overlay_fw.Stt.WsFrame.Sha1.Stream.{sha1_update-append, pad-length}
use subtitle_overlay_fw.Stt.WsFrame.Handshake.{
  accept_for_key, find_header_end, validate_response, validate_bytes, response_status_is_101,
  accept_header_matches,
}

abbrev hello : List ℕ
hello = 72 ∷ 101 ∷ 108 ∷ 108 ∷ 111 ∷ []

encode_reads_back_example :
    (bytes : List ℕ) × (encode true 64 1 (some hello) 5 0x37fa213d ≡ ok (pos (length bytes), bytes))
    × (length bytes ≡ header_size 5 + 5)
    × (rfc_read (bytes ++ 9 ∷ [])
        ≡ some (record { fin = true; masked = true; opcode = 1; payload = hello; rest = 9 ∷ [] }))
encode_reads_back_example =
    encode_reads_back 64 1 0x37fa213d hello (9 ∷ []) (omega arith) (omega arith) (inl (omega arith))
      (omega arith)

hello-IsLegal : IsLegal true 1 5
hello-IsLegal = (omega arith, inl (omega arith))

decode-server_frame_example :
    decode (some (server_frame true 1 hello ++ 9 ∷ [])) 100 true
    ≡ ok (decoded true 1 hello (9 ∷ []))
decode-server_frame_example =
    decode-server_frame true 1 100 hello (9 ∷ []) hello-IsLegal (omega arith) (omega arith)

decode-prefix_example : decode (some (129 ∷ 5 ∷ 72 ∷ [])) 100 true ≡ err eagain
decode-prefix_example =
    decode-prefix true 1 100 hello (129 ∷ 5 ∷ 72 ∷ []) (101 ∷ 108 ∷ 108 ∷ 111 ∷ []) hello-IsLegal
      (omega arith) (omega arith) refl (λ e. cc)

abbrev hello_bytes : List ℕ
hello_bytes = server_frame true 1 hello

hello-decodes : decode (some hello_bytes) 100 true ≡ ok (decoded true 1 hello [])
unfolding decode decode_bytes read_header finish
hello-decodes = refl

decode_bounds_example : InBuffer hello_bytes 100 (decoded true 1 hello [])
decode_bounds_example = decode_bounds hello_bytes 100 hello-decodes

decode_stable_example :
    Extends
      (9 ∷ [])
      (decode (some hello_bytes) 100 true)
      (decode (some (hello_bytes ++ 9 ∷ [])) 100 true)
decode_stable_example = decode_stable hello_bytes (9 ∷ []) 100

base64_encode-rfc_decode_example :
    ((8 ≤ (5 + 2) / 3 * 4) × (base64_encode hello 8 ≡ err enobufs))
    ⊎ ((text : List ℕ) × (base64_encode hello 8 ≡ ok text)
        × (length text ≡ (5 + 2) / 3 * 4)
        × (length text < 8)
        × (rfc_decode text ≡ hello))
base64_encode-rfc_decode_example = base64_encode-rfc_decode hello 8 (ground arith)

init-room : length sha1_init.block < 64
unfolding sha1_init
init-room = omega arith

sha1_update-append_example :
    (sha1_update (sha1_update sha1_init hello) hello ≡ sha1_update sha1_init (hello ++ hello))
    × (length (sha1_update sha1_init hello).block < 64)
sha1_update-append_example = sha1_update-append sha1_init hello hello init-room

pad-length_example : length (pad 64 sha1_init).block ≡ 56
pad-length_example = pad-length sha1_init init-room

-- "dGhlIHNhbXBsZSBub25jZQ==" and "s3pPLMBiTxaQ9kYGzzhZRbK+xOo="
abbrev rfc_key : List ℕ
rfc_key =
    100 ∷ 71 ∷ 104 ∷ 108 ∷ 73 ∷ 72 ∷ 78 ∷ 104 ∷ 98 ∷ 88 ∷ 66 ∷ 115 ∷ 90 ∷ 83 ∷ 66 ∷ 117 ∷ 98 ∷ 50
    ∷ 53 ∷ 106 ∷ 90 ∷ 81 ∷ 61 ∷ 61 ∷ []

abbrev rfc_accept : List ℕ
rfc_accept =
    115 ∷ 51 ∷ 112 ∷ 80 ∷ 76 ∷ 77 ∷ 66 ∷ 105 ∷ 84 ∷ 120 ∷ 97 ∷ 81 ∷ 57 ∷ 107 ∷ 89 ∷ 71 ∷ 122 ∷ 122
    ∷ 104 ∷ 90 ∷ 82 ∷ 98 ∷ 75 ∷ 43 ∷ 120 ∷ 79 ∷ 111 ∷ 61 ∷ []

accept_for_key-rfc : accept_for_key (some rfc_key) true 29 ≡ ok rfc_accept
unfolding accept_for_key sha1_init sha1_update sha1_final sha1_compress base64_encode
accept_for_key-rfc = refl

-- "HTTP/1.1 101 OK\r\nSec-WebSocket-Accept: <the accept value>\r\n\r\n"
abbrev response : List ℕ
response =
    72
    ∷ 84
    ∷ 84
    ∷ 80
    ∷ 47
    ∷ 49
    ∷ 46
    ∷ 49
    ∷ 32
    ∷ 49
    ∷ 48
    ∷ 49
    ∷ 32
    ∷ 79
    ∷ 75
    ∷ 13
    ∷ 10
    ∷ 83
    ∷ 101
    ∷ 99
    ∷ 45
    ∷ 87
    ∷ 101
    ∷ 98
    ∷ 83
    ∷ 111
    ∷ 99
    ∷ 107
    ∷ 101
    ∷ 116
    ∷ 45
    ∷ 65
    ∷ 99
    ∷ 99
    ∷ 101
    ∷ 112
    ∷ 116
    ∷ 58
    ∷ 32
    ∷ (rfc_accept ++ 13 ∷ 10 ∷ 13 ∷ 10 ∷ [])

response-accepted : validate_response (some response) (some rfc_accept) true ≡ ok 71
unfolding validate_response validate_bytes find_header_end response_status_is_101
    accept_header_matches
response-accepted = refl
