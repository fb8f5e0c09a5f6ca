-- ===== src/Packet/Send/ConnectFrames.antt =====
-- `MQTTPacket_send_connect` and `MQTTPacket_send_subscribe`: their buffers are filled exactly.
use mqtt_client.Packet.{connect_type, make_header, subscribe_type}
use mqtt_client.Packet.Send.{
  Credentials, conclude, connect_flags, connect_len, contents, one_buffer, protocol_name,
  send_connect, send_subscribe, subscribe_len, total_length, write_connect, write_password,
  write_topics, write_username,
}
use mqtt_client.Packet.Send.Frames.{answered, release-conclude, send_lem}
use mqtt_client.Prelude.{
  Bool, List, Option, [], arith, length, length-append, none, refl, some, sym, true, ℕ, ◌%◌, ◌*◌,
  ◌++◌, ◌+◌, ◌<◌, ◌∙◌, ◌∷◌, ◌≡◌, ◌≤◌,
}
use mqtt_client.Prelude.Predicates.{Bytes}
use mqtt_client.Prelude.Run.{bind_assoc, bind_cong, bind_fault, done, fault, ◌>>=◌}
use mqtt_client.RemainingLength.{encode}
use mqtt_client.Transport.{Transport}
use mqtt_client.Wire.{Cursor, LenString, fresh, put, write_char, write_int, write_utf}
use mqtt_client.Wire.Writing.{
  IsReadable, copy_from-IsReadable, int_bytes, put-nil, put-put, put_exact, utf_bytes,
  write_data-put, write_int-put, write_utf-put, writers,
}

unfoldable pub username_bytes : Option Bytes → Bytes
username_bytes none = []
username_bytes (some name) = utf_bytes name

unfoldable pub password_bytes : Option Bytes → Bytes
password_bytes none = []
password_bytes (some word) = utf_bytes word

-- The variable header and the payload of a CONNECT packet; `password` is what stands at the
-- password's place in memory.
unfoldable pub connect_bytes : (version : ℕ) → Credentials → (password : Option Bytes) → Bytes
connect_bytes version client password =
    utf_bytes protocol_name
    ++ version % 256 ∷ connect_flags client ∷ int_bytes client.keep_alive_interval
    ++ utf_bytes client.client_id
    ++ username_bytes client.username
    ++ password_bytes password

-- The password in memory: there is none, or it has the bytes of the second argument.
abbrev pub HasPassword : Option LenString → Option Bytes → Type 0
HasPassword none none = Unit
HasPassword none (some word) = ⊥
HasPassword (some s) none = ⊥
HasPassword (some s) (some word) = IsReadable s word

write_username-put :
    (name : Option Bytes) (c : Cursor) → write_username name c ≡ put (username_bytes name) c
unfolding write_username username_bytes
write_username-put none c = sym (put-nil c)
write_username-put (some name) c = write_utf-put name c

write_password-put :
    (s : Option LenString) (word : Option Bytes) (c : Cursor)
    → HasPassword s word
    → write_password s c ≡ put (password_bytes word) c
unfolding write_password password_bytes
write_password-put none none c h = sym (put-nil c)
write_password-put none (some word) c h = absurd h
write_password-put (some s) none c h = absurd h
write_password-put (some s) (some word) c h =
    rw (copy_from-IsReadable s word h) (write_data-put word c)

write_connect-put :
    (version : ℕ) (client : Credentials) (password : Option Bytes) (c : Cursor)
    → HasPassword client.password password
    → write_connect version client c ≡ put (connect_bytes version client password) c
unfolding write_connect connect_bytes
write_connect-put version client password c h =
    simp
      (writers, write_username-put, λ (c : Cursor). write_password-put client.password password c h)
      refl

length-username_bytes :
    (name : Option Bytes)
    → length (username_bytes name) ≡ elim name [ none ↦ 0 | some s ↦ length s + 2 ]
unfolding username_bytes utf_bytes int_bytes
length-username_bytes none = refl
length-username_bytes (some name) = omega arith

length-password_bytes :
    (s : Option LenString) (word : Option Bytes)
    → HasPassword s word
    → length (password_bytes word) ≡ elim s [ none ↦ 0 | some s ↦ s.len + 2 ]
unfolding password_bytes utf_bytes int_bytes
length-password_bytes none none h = refl
length-password_bytes none (some word) h = absurd h
length-password_bytes (some s) none h = absurd h
length-password_bytes (some s) (some word) h = omega (arith, h.sized)

connect_len-length :
    (version : ℕ) (client : Credentials) (password : Option Bytes)
    → HasPassword client.password password
    → connect_len client ≡ length (connect_bytes version client password)
unfolding connect_len connect_bytes utf_bytes int_bytes
connect_len-length version client password h =
    let id = client.client_id in
    let name = username_bytes client.username in
    omega (
      arith,
      length-append (id ++ name) (password_bytes password),
      length-append id name,
      length-username_bytes client.username,
      length-password_bytes client.password password h,
    )

-- The topics of a SUBSCRIBE packet, each with its quality of service.
unfoldable pub topics_bytes : List Bytes → List ℕ → Bytes
topics_bytes [] qoss = []
topics_bytes (topic ∷ topics) [] = []
topics_bytes (topic ∷ topics) (qos ∷ qoss) = utf_bytes topic ++ qos % 256 ∷ topics_bytes topics qoss

write_topics-put :
    (topics : List Bytes) (qoss : List ℕ) (c : Cursor)
    → length topics ≤ length qoss
    → write_topics topics qoss c ≡ put (topics_bytes topics qoss) c
unfolding write_topics topics_bytes
write_topics-put [] qoss c h = sym (put-nil c)
write_topics-put (topic ∷ topics) [] c h = absurd (omega arith)
write_topics-put (topic ∷ topics) (qos ∷ qoss) c h =
    simp (writers, λ (c : Cursor). write_topics-put topics qoss c (omega arith)) refl

subscribe_len-length :
    (topics : List Bytes) (qoss : List ℕ)
    → length topics ≤ length qoss
    → length topics * 3 + total_length topics ≡ length (topics_bytes topics qoss)
unfolding topics_bytes total_length utf_bytes int_bytes
subscribe_len-length [] qoss h = refl
subscribe_len-length (topic ∷ topics) [] h = absurd (omega arith)
subscribe_len-length (topic ∷ topics) (qos ∷ qoss) h = omega (
  arith,
  length-append topic (qos % 256 ∷ topics_bytes topics qoss),
  subscribe_len-length topics qoss (omega arith),
)

write_topics-fault :
    (topics : List Bytes) (qoss : List ℕ) (c : Cursor)
    → length qoss < length topics
    → write_topics topics qoss c ≡ fault
unfolding write_topics
write_topics-fault [] qoss c h = absurd (omega arith)
write_topics-fault (topic ∷ topics) [] c h = refl
write_topics-fault (topic ∷ topics) (qos ∷ qoss) c h = bind_fault (write_utf topic c) _ (λ c₁.
    bind_fault (write_char (qos % 256) c₁) _
      (λ c₂. write_topics-fault topics qoss c₂ (omega arith)))

-- The buffer of a SUBSCRIBE packet is filled exactly.
subscribe_filled :
    (topics : List Bytes) (qoss : List ℕ) (msgid : ℕ)
    → length topics ≤ length qoss
    → (write_int msgid (fresh (subscribe_len topics)) >>= write_topics topics qoss)
      ≡ done (record { written = int_bytes msgid ++ topics_bytes topics qoss; room = 0 })
unfolding subscribe_len
subscribe_filled topics qoss msgid h =
    let body = int_bytes msgid ++ topics_bytes topics qoss in
    let size : subscribe_len topics ≡ length body =
      unfold int_bytes in omega (arith, subscribe_len-length topics qoss h) in
    rw
      (
        write_int-put,
        bind_cong (put (int_bytes msgid) (fresh (subscribe_len topics))) _ _
            (λ c. write_topics-put topics qoss c h),
        put-put,
        size,
        put_exact body,
      )
      refl

module _ {S : Type 0} (t : Transport S) where
  -- With memory and a password of the length that is given, `MQTTPacket_send_connect` fills its buffer exactly with the protocol name, the
  -- version, the flags, the keep-alive interval, the client identifier, and the user name and the
  -- password where they are given. Whatever the layer below answers, the buffer stays allocated.
  pub send_connect-connect_bytes :
      (mem : ℕ → Bool) (version : ℕ) (client : Credentials) (password : Option Bytes) (s : S)
      → mem 0 ≡ true
      → mem 1 ≡ true
      → HasPassword client.password password
      → let body = connect_bytes version client password in
        let buf = make_header connect_type 0 0 0 ∷ encode (length body) in
        let sent = conclude t buf (t.putdatas buf (one_buffer body true) s) in
        send_connect t mem version client s ≡ done (record sent { held = sent.held ++ body ∷ [] })
  unfolding send_connect contents conclude
  send_connect-connect_bytes mem version client password s m0 m1 h =
      rw
        (
          m0,
          m1,
          write_connect-put version client password _ h,
          connect_len-length version client password h,
          put_exact (connect_bytes version client password),
          send_lem,
        )
        refl

  -- With memory and a quality of service for each topic, `MQTTPacket_send_subscribe` fills its buffer
  -- exactly with the identifier and each topic with its quality of service. Whatever the layer below
  -- answers is the result; the buffers stay allocated where it is interrupted, and are released
  -- otherwise; and the time of the sending is taken where all is sent.
  pub send_subscribe-topics_bytes :
      (mem : ℕ → Bool) (topics : List Bytes) (qoss : List ℕ) (msgid dup : ℕ) (s : S)
      → mem 0 ≡ true
      → mem 1 ≡ true
      → length topics ≤ length qoss
      → let body = int_bytes msgid ++ topics_bytes topics qoss in
        let buf = make_header subscribe_type dup 1 0 ∷ encode (length body) in
        send_subscribe t mem topics qoss msgid dup s
        ≡ done (answered t (buf ∷ body ∷ []) (t.putdatas buf (one_buffer body true) s))
  unfolding send_subscribe contents
  send_subscribe-topics_bytes mem topics qoss msgid dup s m0 m1 h =
      rw (m0, m1)
        (sym (
            bind_assoc (write_int msgid (fresh (subscribe_len topics))) (write_topics topics qoss)
              _)
          ∙ rw (subscribe_filled topics qoss msgid h, send_lem, release-conclude) refl)

  -- With memory for its buffer and fewer qualities of service than topics, `MQTTPacket_send_subscribe`
  -- leaves its defined behaviour.
  pub send_subscribe-fault :
      (mem : ℕ → Bool) (topics : List Bytes) (qoss : List ℕ) (msgid dup : ℕ) (s : S)
      → mem 0 ≡ true
      → length qoss < length topics
      → send_subscribe t mem topics qoss msgid dup s ≡ fault
  unfolding send_subscribe
  send_subscribe-fault mem topics qoss msgid dup s m0 h = rw m0 (
      bind_fault (write_int msgid (fresh (subscribe_len topics))) _
        (λ c. rw (write_topics-fault topics qoss c h) refl))
