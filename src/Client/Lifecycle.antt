-- ===== src/Client/Lifecycle.antt =====
-- The life of a client in src/client.c: what any sequence of calls of `cdtp_client_connect` and
-- `cdtp_client_disconnect`, and of rounds of `_cdtp_client_handle`, can do to it.
use Prim.Native.String.{String}
use cdtp.Common.{
  ℕ, ◌≡◌, refl, ap, ◌∙◌, Bool, true, false, List, Option, none, some, ok, Ensures, bind-Ensures,
  then-Ensures, Ensures-ok, Bool-cases, ◌&&◌, inl, inr, arith,
}
use cdtp.Crypto.Evp.{Evp}
use cdtp.Crypto.Attempt.{deref}
use cdtp.Crypto.Aes.{AesKey, aes_key}
use cdtp.Crypto.Rsa.{public_key_from_bytes, rsa_encrypt}
use cdtp.Wire.{construct_message}
use cdtp.Client.Handle.{HandleCalls, handle_round}
use cdtp.Client.Parting.{disconnect-done, Parts, handle_round-Parts, handle_round-frozen}
use cdtp.Transport.{
  Errnos, Failure, Effect, SockAddr, fill_address, Received, message, broken, receive_key,
}
use cdtp.Client.{
  key_sent, answer_key, exchanged, reached, addressed, Client, ExchangeCalls, ConnectCalls,
  call_handle, exchange_keys, connect, disconnect,
}

key_sent-is_done :
    (c : Client) (key : AesKey) (frame : List ℕ) (failure : Failure)
    → (key_sent c key frame failure).0.is_done ≡ c.is_done
unfolding key_sent
key_sent-is_done c key frame none = refl
key_sent-is_done c key frame (some errno) = refl

exchanged-is_done :
    (calls : ConnectCalls) (r : Client × Bool × List Effect)
    → (exchanged calls r).0.is_done ≡ r.0.is_done
unfolding exchanged call_handle
exchanged-is_done calls (c', false, effects) = refl
exchanged-is_done calls (c', true, effects) = ground arith

module _ {Ctx Pkey : Type 0} (evp : Evp Ctx Pkey) where
  answer_key-is_done :
      (calls : ExchangeCalls) (c : Client) (received : Received)
      → Ensures (answer_key evp calls c received) (λ r. r.0.is_done ≡ c.is_done)
  unfolding answer_key
  answer_key-is_done calls c (broken errno) = refl
  answer_key-is_done calls c (message buffer msg_size) =
      bind-Ensures (public_key_from_bytes buffer msg_size) _ _ λ public_key.
        bind-Ensures (deref (aes_key calls.key_random)) _ _ λ key.
          bind-Ensures
            (deref (rsa_encrypt evp calls.beyond calls.seal_random public_key key.key key.key_size))
            _ _
            λ encrypted.
              bind-Ensures (construct_message encrypted.bytes encrypted.data_size) _ _
                λ frame. key_sent-is_done c key frame calls.send_failure

  exchange_keys-is_done :
      (calls : ExchangeCalls) (c : Client)
      → Ensures (exchange_keys evp calls c) (λ r. r.0.is_done ≡ c.is_done)
  unfolding exchange_keys
  exchange_keys-is_done calls c =
      bind-Ensures (receive_key calls.size_buffer calls.first calls.second) _ _
        (answer_key-is_done calls c)

  reached-is_done :
      (calls : ConnectCalls) (c : Client) (failure fcntl_failure : Failure)
      → Ensures (reached evp calls c failure fcntl_failure) (λ r. r.0.is_done ≡ c.is_done)
  unfolding reached
  reached-is_done calls c (some errno) fcntl_failure = refl
  reached-is_done calls c none (some errno) = refl
  reached-is_done calls c none none =
      let c' : Client = record c { connected = true } in
      then-Ensures (exchange_keys evp calls.exchange c') _ (λ r. r.0.is_done ≡ c.is_done)
        (λ r. r.0.is_done ≡ c.is_done) (exchange_keys-is_done calls.exchange c')
        (λ r e. exchanged-is_done calls r ∙ e)

  addressed-is_done :
      (calls : ConnectCalls) (c : Client) (address : Option SockAddr)
      → Ensures (addressed evp calls c address) (λ r. r.0.is_done ≡ c.is_done)
  unfolding addressed
  addressed-is_done calls c none = refl
  addressed-is_done calls c (some address) =
      reached-is_done calls (record c { address = address }) calls.connect_failure
        calls.fcntl_failure

  -- A call of `cdtp_client_connect` or `cdtp_client_disconnect`, or a round of the loop of
  -- `_cdtp_client_handle`, that returns, with any results of the system calls that it makes.
  pub data Step (c : Client) : Client → Type 0 where
    connects :
        (calls : ConnectCalls) (af_inet : ℕ) (host : String) (port : ℕ)
        → {c' : Client} {effects : List Effect}
        → connect evp calls af_inet host port c ≡ ok (c', effects)
        → Step c c'
    disconnects :
        (close_failure : Failure) (self : Bool) (join_code detach_code : ℕ)
        → {c' : Client} {effects : List Effect}
        → disconnect close_failure self join_code detach_code c ≡ ok (c', effects)
        → Step c c'
    round :
        (self : ℕ) (errnos : Errnos) (calls : HandleCalls) (buffer : List ℕ) (effects : List Effect)
        (goes_on : Bool)
        → {c' : Client} → handle_round self evp errnos calls c buffer ≡ ok (c', effects, goes_on)
        → Step c c'

  pub data Reach (c : Client) : Client → Type 0 where
    here : Reach c c
    next : {c' c'' : Client} → Reach c c' → Step c' c'' → Reach c c''

  -- never connected and done at once
  abbrev pub IsValid : Client → Type 0
  IsValid c = (c.connected && c.is_done) ≡ false

  connect-frozen :
      (calls : ConnectCalls) (af_inet : ℕ) (host : String) (port : ℕ) (c : Client)
      → c.is_done ≡ true
      → Ensures (connect evp calls af_inet host port c) (λ r. r.0 ≡ c)
  unfolding connect
  connect-frozen calls af_inet host port c d = ground arith

  connect-is_done :
      (calls : ConnectCalls) (af_inet : ℕ) (host : String) (port : ℕ) (c : Client)
      → c.is_done ≡ false
      → Ensures (connect evp calls af_inet host port c) (λ r. r.0.is_done ≡ false)
  unfolding connect
  connect-is_done calls af_inet host port c d =
      let next : Ensures
          (addressed evp calls c (fill_address calls.inet_pton af_inet host port c.address))
          (λ r. r.0.is_done ≡ c.is_done) =
        addressed-is_done calls c (fill_address calls.inet_pton af_inet host port c.address) in
      ground (arith, next)

  disconnect-frozen :
      (close_failure : Failure) (self : Bool) (join_code detach_code : ℕ) (c : Client)
      → c.connected ≡ false
      → Ensures (disconnect close_failure self join_code detach_code c) (λ r. r.0 ≡ c)
  unfolding disconnect
  disconnect-frozen close_failure self join_code detach_code c d = ground arith

  Step-IsValid : {c c' : Client} → Step c c' → IsValid c → IsValid c'
  Step-IsValid {c} {c'} (connects calls af_inet host port {effects = effects} e) v =
      elim (Bool-cases c.is_done) [
        | inl d ↦
            let same : c' ≡ c =
              Ensures-ok (connect evp calls af_inet host port c) (λ r. r.0 ≡ c)
                (connect-frozen calls af_inet host port c d) e in
            rw (same, v)
        | inr d ↦
            let off : c'.is_done ≡ false =
              Ensures-ok (connect evp calls af_inet host port c) (λ r. r.0.is_done ≡ false)
                (connect-is_done calls af_inet host port c d) e in
            ground (arith, off)
      ]
  Step-IsValid {c} {c'} (disconnects close_failure self join_code detach_code e) v =
      elim (Bool-cases c.connected) [
        | inl d ↦
            let off : (c'.connected ≡ false) × (c'.is_done ≡ true) =
              Ensures-ok (disconnect close_failure self join_code detach_code c)
                (λ r. (r.0.connected ≡ false) × (r.0.is_done ≡ true))
                (disconnect-done close_failure self join_code detach_code c d) e in
            ground (arith, off)
        | inr d ↦
            let same : c' ≡ c =
              Ensures-ok (disconnect close_failure self join_code detach_code c) (λ r. r.0 ≡ c)
                (disconnect-frozen close_failure self join_code detach_code c d) e in
            rw (same, v)
      ]
  Step-IsValid {c} {c'} (round self errnos calls buffer effects goes_on e) v =
      elim (Bool-cases c.connected) [
        | inl on ↦
            elim (Ensures-ok (handle_round self evp errnos calls c buffer) (λ t. Parts c t.0)
              (handle_round-Parts self evp errnos calls c buffer on) e) [
                | inl same ↦ rw (same, v)
                | inr (off, done) ↦ ground (arith, off)
              ]
        | inr off ↦
            let same : c' ≡ c =
              Ensures-ok (handle_round self evp errnos calls c buffer) (λ t. t.0 ≡ c)
                (handle_round-frozen self evp errnos calls c buffer off) e in
            rw (same, v)
      ]

  -- No sequence of calls of `connect` and `disconnect` and of rounds of the loop, all of which return,
  -- whatever the system calls give, brings a client that is not both connected and done to be both.
  pub Reach-IsValid : {c c' : Client} → Reach c c' → IsValid c → IsValid c'
  Reach-IsValid here v = v
  Reach-IsValid (next r s) v = Step-IsValid s (Reach-IsValid r v)

  Step-frozen : {c c' : Client} → Step c c' → c.is_done ≡ true → c.connected ≡ false → c' ≡ c
  Step-frozen {c} {c'} (connects calls af_inet host port e) d off =
      Ensures-ok (connect evp calls af_inet host port c) (λ r. r.0 ≡ c)
        (connect-frozen calls af_inet host port c d) e
  Step-frozen {c} {c'} (disconnects close_failure self join_code detach_code e) d off =
      Ensures-ok (disconnect close_failure self join_code detach_code c) (λ r. r.0 ≡ c)
        (disconnect-frozen close_failure self join_code detach_code c off) e
  Step-frozen {c} {c'} (round self errnos calls buffer effects goes_on e) d off =
      Ensures-ok (handle_round self evp errnos calls c buffer) (λ t. t.0 ≡ c)
        (handle_round-frozen self evp errnos calls c buffer off) e

  pub Reach-frozen : {c c' : Client} → Reach c c' → c.is_done ≡ true → c.connected ≡ false → c' ≡ c
  Reach-frozen here d off = refl
  Reach-frozen {c} (next {c' = c₁} r s) d off =
      let same : c₁ ≡ c = Reach-frozen {c' = c₁} r d off in
      Step-frozen s (ap (λ x. x.is_done) same ∙ d) (ap (λ x. x.connected) same ∙ off) ∙ same

  -- A call of `disconnect` on a connected client, if it returns, leaves a client that is done and not
  -- connected, and no sequence of calls of `connect` and `disconnect` and of rounds of the loop after
  -- it changes that client.
  pub disconnect-ends :
      (close_failure : Failure) (self : Bool) (join_code detach_code : ℕ) (c : Client)
      → {c₁ c' : Client} {effects : List Effect} → c.connected ≡ true
      → disconnect close_failure self join_code detach_code c ≡ ok (c₁, effects)
      → Reach c₁ c'
      → (c₁.connected ≡ false) × (c₁.is_done ≡ true) × (c' ≡ c₁)
  disconnect-ends close_failure self join_code detach_code c {c₁} d e r =
      let (off, done) : (c₁.connected ≡ false) × (c₁.is_done ≡ true) =
        Ensures-ok (disconnect close_failure self join_code detach_code c)
          (λ r. (r.0.connected ≡ false) × (r.0.is_done ≡ true))
          (disconnect-done close_failure self join_code detach_code c d) e in
      (off, done, Reach-frozen r done off)
