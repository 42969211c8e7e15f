-- ===== src/Whatap/Tests.antt =====
-- Concrete runs of internal/whatap, and its theorems at concrete inputs.
use agentkubenetwork.Base.{
  ℕ, ◌%◌, ltb, ◌≤◌, ◌≡◌, ◌≢◌, refl, [], ◌∷◌, ◌++◌, length, replicate, take, drop, false,
  if◌then◌else◌, none, some, Bytes, ok, arith, ◌∙◌, ◌+◌, ◌==◌, Option, err, List,
}
use agentkubenetwork.Whatap.Delivery.{
  Pack, Network, ambiguous_delivery, send, send_locked, send_body, with_session, try_servers,
  try_server, settle_frame, send_frame, write_frame, serialize,
}
use agentkubenetwork.Whatap.Delivery.Once.{frames_of, send_once}
use agentkubenetwork.Base.Int.{pos}
use agentkubenetwork.Whatap.Frame.{make_frame, parse_header, parse_header-make_frame}
use agentkubenetwork.Whatap.Cipher.{decrypt_ecb, encrypt_ecb, each_block, Inverse}
use agentkubenetwork.Whatap.Blob.{take_blob, blob_size, cut_blob, Announces, take_blob_within}
use agentkubenetwork.Whatap.KeyReply.{
  decode_key_reply, read_reply, accept_key, all_zero, reply_of, decode_key_reply-encrypt_ecb,
  decode_key_reply_sound,
}
use agentkubenetwork.Whatap.Writing.{Writer, write_all, write_all_total, stuck}

-- A block function that is its own inverse: the first two bytes change places.
abbrev swap : Bytes → Bytes
swap [] = []
swap (a ∷ []) = a ∷ []
swap (a ∷ b ∷ r) = b ∷ a ∷ r

length-swap : (b : Bytes) → length (swap b) ≡ length b
length-swap [] = refl
length-swap (a ∷ []) = refl
length-swap (a ∷ b ∷ r) = refl

swap-swap : (b : Bytes) → swap (swap b) ≡ b
swap-swap [] = refl
swap-swap (a ∷ []) = refl
swap-swap (a ∷ b ∷ r) = refl

swapped : Inverse swap swap
swapped = record { sized = λ b h. length-swap b ∙ h; undone = λ b h. swap-swap b }

abbrev key : Bytes
key = replicate 16 7

abbrev unused : Bytes
unused = replicate 8 1

abbrev encrypted : Bytes
unfolding encrypt_ecb each_block
encrypted = encrypt_ecb swap (reply_of 258 key unused)

-- A writer that takes two bytes at a time, and at most three calls' worth.
abbrev slow : Writer
slow n bytes =
    if ltb n 6
    then (if ltb (length bytes) 2 then (pos 1, false) else (pos 2, false))
    else (pos 0, false)

parse_header-make_frame_example :
    (parse_header (take 22 (make_frame 255 1000 7 258 (1 ∷ 2 ∷ [])))
      ≡ record { source = 1; code = 255; pcode = 1000; oid = 7; transfer_key = 258; size = 2 })
    × (drop 22 (make_frame 255 1000 7 258 (1 ∷ 2 ∷ [])) ≡ 1 ∷ 2 ∷ [])
parse_header-make_frame_example =
    parse_header-make_frame 255 1000 7 258 (1 ∷ 2 ∷ []) (omega arith) (omega arith) (omega arith)
      (omega arith)

taken : take_blob (255 ∷ 0 ∷ 2 ∷ 5 ∷ 6 ∷ 9 ∷ []) 16 ≡ ok (5 ∷ 6 ∷ [], 9 ∷ [])
unfolding take_blob blob_size cut_blob
taken = refl

take_blob_within_example :
    (2 ≤ 16)
    × ((prefix : Bytes) × (255 ∷ 0 ∷ 2 ∷ 5 ∷ 6 ∷ 9 ∷ [] ≡ prefix ++ (5 ∷ 6 ∷ 9 ∷ []))
        × Announces prefix (length prefix) 2)
take_blob_within_example =
    take_blob_within (255 ∷ 0 ∷ 2 ∷ 5 ∷ 6 ∷ 9 ∷ []) (5 ∷ 6 ∷ []) (9 ∷ []) 16 taken

decode_key_reply-encrypt_ecb_example :
    decode_key_reply swap (encrypt_ecb swap (reply_of 258 key unused)) ≡ ok (258, key)
decode_key_reply-encrypt_ecb_example =
    decode_key_reply-encrypt_ecb swap swap swapped 258 key unused (omega arith)
      (λ e. absurd (omega (arith, e))) refl refl

decode_key_reply_run : decode_key_reply swap encrypted ≡ ok (258, key)
unfolding encrypt_ecb each_block decode_key_reply decrypt_ecb read_reply accept_key all_zero
    take_blob blob_size cut_blob
decode_key_reply_run = refl

decode_key_reply_sound_example :
    (16 ≤ length encrypted)
    × (length encrypted ≤ 1024)
    × (length encrypted % 16 ≡ 0)
    × (◌≢◌ {A = ℕ} 258 0)
    × (length key ≡ 16)
decode_key_reply_sound_example = decode_key_reply_sound swap encrypted 258 key decode_key_reply_run

write_all_total_example :
    ((write_all slow (1 ∷ 2 ∷ 3 ∷ [])).0 ≤ 3)
    × ((write_all slow (1 ∷ 2 ∷ 3 ∷ [])).1 ≡ none → (write_all slow (1 ∷ 2 ∷ 3 ∷ [])).0 ≡ 3)
    × ((write_all slow (1 ∷ 2 ∷ 3 ∷ [])).1 ≢ some stuck)
write_all_total_example = write_all_total slow (1 ∷ 2 ∷ 3 ∷ [])

-- A network that counts its calls: the first connection fails, and every write.
abbrev network : Network ℕ ℕ ℕ
network = record {
  acquire = λ n. (n, none);
  release = λ n. n;
  operation_error = λ n. (n, none);
  current_session = λ n. (n, none);
  drop_session = λ n s. n;
  connect = λ n server. (n + 1, if n == 0 then err 7 else ok n);
  is_closed = λ n s. (n, none);
  set_write_deadline = λ n s. (n, none);
  transfer_key = λ s. s;
  block = λ s b. b;
  write = λ n s frame. (n + 1, some 9);
}

abbrev three_servers : List Bytes
three_servers = (1 ∷ []) ∷ (2 ∷ []) ∷ (3 ∷ []) ∷ []

abbrev sent_pack : Option Pack
sent_pack = some (record { pcode = 0; oid = 4; encode = λ pcode oid. some (1 ∷ 2 ∷ []) })

-- The third server is not tried.
send_test : (send network 3 4 three_servers 0 sent_pack).2 ≡ some (ambiguous_delivery 9)
unfolding send send_locked send_body with_session try_servers try_server settle_frame send_frame
    write_frame serialize
send_test = refl

send_once_example : let r = send network 3 4 three_servers 0 sent_pack in length r.1 ≡ frames_of r.2
send_once_example = send_once network 3 4 three_servers 0 sent_pack
