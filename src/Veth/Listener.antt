-- ===== src/Veth/Listener.antt =====
-- netdrv_veth/userspc/listener_dgram.c, which receives one datagram at the driver's port and prints
-- it.
use l3_dd_trg.Base.{
  ℕ, ◌+◌, ◌-◌, ◌*◌, ◌/◌, ◌%◌, ◌<◌, ◌≡◌, refl, ap, ap₂, ◌∙◌, Bool, true, not, Option, none, some,
  List, [], ◌∷◌, ◌++◌, length, length-take, take, set, ◌==◌, ltb, if◌then◌else◌, arith,
}
use l3_dd_trg.Base.Bytes.{overwrite, length-overwrite}
use l3_dd_trg.Base.Text.{
  text_at, NoneNul, text_at-overwrite, overwrite-nul, hex2, hex_value, hex_value-hex_digit,
}

-- MAXBUFLEN
abbrev maxbuflen : ℕ
maxbuflen = 1024

-- What the system answers: there is a socket, it is bound, and what `recvfrom` copies, given the
-- size of the buffer; `none` is -1.
pub record Receiver : Type 0 where
  pub socket : Bool
  pub bind : Bool
  pub recvfrom : ℕ → Option (List ℕ)

-- What the program prints, below its first line. `explained` is the text on the meta-data, `perror`
-- an error.
pub data Said : Type 0 where
  got_packet explained perror : Said
  bytes_long : ℕ → Said
  dumped : List ℕ → Said
  contains : List ℕ → Said

-- `hexdump`
unfoldable pub hexdump : List ℕ → List ℕ
hexdump [] = 10 ∷ []
hexdump (c ∷ bytes) = hex2 c ++ b' ' ∷ hexdump bytes

-- The store of the NUL at `numbytes`; `none` is a store past the end of the array.
abbrev terminate : List ℕ → ℕ → Option (List ℕ)
terminate buf numbytes = if ltb numbytes (length buf) then some (set buf numbytes 0) else none

-- What is printed once the array has its NUL.
abbrev said_of : List ℕ → Option (List ℕ) → Option (List Said)
said_of got none = none
said_of got (some buf) =
    let meta = if length got == 58 then explained ∷ dumped (hexdump got) ∷ [] else [] in
    some (got_packet ∷ bytes_long (length got) ∷ (meta ++ contains (text_at buf) ∷ []))

abbrev exit_with : Option (List Said) → Option (ℕ × List Said)
exit_with none = none
exit_with (some said) = some (0, said)

-- From the answer of `recvfrom` on.
abbrev finish : List ℕ → Option (List ℕ) → Option (ℕ × List Said)
finish buf none = some (1, perror ∷ [])
finish buf (some got) = exit_with (said_of got (terminate (overwrite buf 0 got) (length got)))

-- `main`: the exit status and what it prints; `buf` is what the array held. `none` is an access out of
-- the array.
unfoldable pub listener : Receiver → List ℕ → Option (ℕ × List Said)
listener s buf =
    if not s.socket
    then some (1, perror ∷ [])
    else if not s.bind
    then some (1, perror ∷ [])
    else finish buf (s.recvfrom (maxbuflen - 1))

-- The bytes that a dump shows.
abbrev undump : List ℕ → List ℕ
undump (a ∷ b ∷ space ∷ rest) = (16 * hex_value a + hex_value b) ∷ undump rest
undump _ = []

abbrev AllBytes : List ℕ → Type 0
AllBytes [] = Unit
AllBytes (c ∷ bytes) = (c < 256) × AllBytes bytes

-- Every byte of a dump can be read back.
undump-hexdump : (bytes : List ℕ) → AllBytes bytes → undump (hexdump bytes) ≡ bytes
unfolding hexdump
undump-hexdump [] h = refl
undump-hexdump (c ∷ bytes) h =
    ap₂ ◌∷◌
      (omega (
        arith,
        hex_value-hex_digit (c / 16 % 16) (omega arith),
        hex_value-hex_digit (c % 16) (omega arith),
        h.0,
      ))
      (undump-hexdump bytes h.1)

-- What the program says of a datagram.
abbrev pub account : List ℕ → List Said
account got =
    got_packet
    ∷ bytes_long (length got)
    ∷ ((if length got == 58 then explained ∷ dumped (hexdump got) ∷ [] else [])
        ++ contains got ∷ [])

-- The array holds the datagram and its NUL.
finish_lem :
    (buf got : List ℕ)
    → length got < length buf
    → NoneNul got
    → finish buf (some got) ≡ some (0, account got)
finish_lem buf got h clean =
    let stored : terminate (overwrite buf 0 got) (length got)
        ≡ some (set (overwrite buf 0 got) (length got) 0) =
      ground (arith, length-overwrite buf 0 got) in
    let text : text_at (set (overwrite buf 0 got) (length got) 0) ≡ got =
      ap text_at (overwrite-nul buf got h) ∙ text_at-overwrite buf got clean h in
    ap (λ o. exit_with (said_of got o)) stored
    ∙ ap
        (λ t. some (
          0,
          got_packet
              ∷ bytes_long (length got)
              ∷ ((if length got == 58 then explained ∷ dumped (hexdump got) ∷ [] else [])
                  ++ contains t ∷ []),
        ))
        text

-- A datagram whose first 1023 bytes have no NUL comes in on a socket that is bound: the array is never
-- overrun, whatever the length of the datagram; the program exits with 0 and says of those first bytes
-- their number, shows them in hexadecimal exactly if they are 58, and prints them as a text.
pub listener_lem :
    (s : Receiver) (buf msg : List ℕ)
    → s.socket ≡ true
    → s.bind ≡ true
    → s.recvfrom 1023 ≡ some (take 1023 msg)
    → length buf ≡ maxbuflen
    → NoneNul (take 1023 msg)
    → listener s buf ≡ some (0, account (take 1023 msg))
unfolding listener
listener_lem s buf msg sock bound came size clean =
    rw (sock, bound, came)
      (finish_lem buf (take 1023 msg) (omega (arith, size, length-take 1023 msg)) clean)
