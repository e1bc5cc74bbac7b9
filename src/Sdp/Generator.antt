-- ===== src/Sdp/Generator.antt =====
-- `sdp_generate` of src/signal/sdp_generator.c. The text is built without regard to the size of the
-- buffer; `snprintf` writes it as it is where it fits.
use tinyrtc.Prelude.{
  ℕ, ◌*◌, Bool, true, false, ◌&&◌, List, [], ◌∷◌, ◌++◌, ltb, if◌then◌else◌, length,
}
use tinyrtc.Codec.{codec_number, get_name}
use tinyrtc.TrackTypes.{TrackKind, audio, video}
use tinyrtc.Sdp.{Media, SdpCandidate, SdpSession}
use tinyrtc.Sdp.Text.{codes, print_unsigned, print_int}

-- The size of the buffer.
abbrev pub estimated_size : ℕ
estimated_size = 8 * 1024

-- What ends each line.
abbrev pub crlf : List ℕ
crlf = b'\r' ∷ b'\n' ∷ []

-- `text[0] ? text : default`
unfoldable pub text_or : List ℕ → List ℕ → List ℕ
text_or [] default = default
text_or (c ∷ cs) default = c ∷ cs

-- A line that is written where its text is not empty.
unfoldable pub optional_line : List ℕ → List ℕ → List ℕ
optional_line head [] = []
optional_line head (c ∷ cs) = head ++ ((c ∷ cs) ++ crlf)

unfoldable pub version_line : SdpSession → List ℕ
version_line session = codes "v=" ++ (print_int session.version ++ crlf)

unfoldable pub origin_line_text : SdpSession → List ℕ
origin_line_text session =
    codes "o="
    ++ (text_or session.username (codes "-")
        ++ (codes " "
            ++ (print_unsigned session.session_id
                ++ (codes " "
                    ++ (print_unsigned session.session_version
                        ++ (codes " "
                            ++ (text_or session.network_type (codes "IN")
                                ++ (codes " "
                                    ++ (text_or session.address_type (codes "IP4")
                                        ++ (codes " "
                                            ++ (text_or session.unicast_address (codes "0.0.0.0")
                                                ++ crlf)))))))))))

unfoldable pub name_line : SdpSession → List ℕ
name_line session = codes "s=" ++ (text_or session.session_name (codes "-") ++ crlf)

unfoldable pub timing_line_text : SdpSession → List ℕ
timing_line_text session =
    codes "t="
    ++ (print_unsigned session.start_time
        ++ (codes " " ++ (print_unsigned session.stop_time ++ crlf)))

unfoldable pub fingerprint_line : List ℕ → List ℕ → List ℕ
fingerprint_line type [] = []
fingerprint_line type (c ∷ cs) =
    codes "a=fingerprint:" ++ (type ++ (codes " " ++ ((c ∷ cs) ++ crlf)))

-- The loop that looks for a track without an identification.
unfoldable pub have_all_mids : List Media → Bool
have_all_mids [] = true
have_all_mids (m ∷ ms) = ltb 0 (length m.mid) && have_all_mids ms

unfoldable pub mids : List Media → List ℕ
mids [] = []
mids (m ∷ ms) = codes " " ++ (m.mid ++ mids ms)

unfoldable pub group_line : List Media → List ℕ
group_line [] = []
group_line (m ∷ ms) =
    if have_all_mids (m ∷ ms) then codes "a=group:BUNDLE" ++ (mids (m ∷ ms) ++ crlf) else []

abbrev pub media_name : TrackKind → List ℕ
media_name audio = codes "audio"
media_name video = codes "video"

-- What follows the clock rate in `a=rtpmap`.
unfoldable pub channels_text : TrackKind → ℕ → List ℕ
channels_text audio channels =
    if ltb 1 channels && ltb channels 2147483648
    then codes "/" ++ print_int channels
    else codes "/1"
channels_text video channels = []

unfoldable pub rtpmap_line : Media → List ℕ
rtpmap_line m =
    codes "a=rtpmap:"
    ++ (print_int m.payload_type
        ++ (codes " "
            ++ (codes (get_name (codec_number m.codec_id))
                ++ (codes "/"
                    ++ (print_unsigned m.clock_rate
                        ++ (channels_text m.kind m.channels ++ crlf))))))

unfoldable pub direction_line : Bool → Bool → List ℕ
direction_line true true = codes "a=sendrecv\r\n"
direction_line true false = codes "a=sendonly\r\n"
direction_line false true = codes "a=recvonly\r\n"
direction_line false false = codes "a=inactive\r\n"

unfoldable pub media_description_line : Media → List ℕ
media_description_line m =
    codes "m="
    ++ (media_name m.kind
        ++ (codes " "
            ++ (print_int m.port
                ++ (codes " UDP/TLS/RTP/SAVPF " ++ (print_int m.payload_type ++ crlf)))))

-- The lines of a track.
unfoldable pub media_text : Media → List ℕ
media_text m =
    media_description_line m
    ++ (rtpmap_line m
        ++ (optional_line (codes "a=mid:") m.mid
            ++ (codes "a=rtcp-mux\r\n" ++ direction_line m.direction_send m.direction_recv)))

unfoldable pub media_texts : List Media → List ℕ
media_texts [] = []
media_texts (m ∷ ms) = media_text m ++ media_texts ms

unfoldable pub candidate_line : SdpCandidate → List ℕ
candidate_line c =
    codes "a=candidate:"
    ++ (c.foundation
        ++ (codes " 1 "
            ++ (c.protocol
                ++ (codes " "
                    ++ (print_unsigned c.priority
                        ++ (codes " "
                            ++ (c.ip
                                ++ (codes " "
                                    ++ (print_int c.port
                                        ++ (codes " typ " ++ (c.type ++ crlf)))))))))))

unfoldable pub candidate_lines : List SdpCandidate → List ℕ
candidate_lines [] = []
candidate_lines (c ∷ cs) = candidate_line c ++ candidate_lines cs

-- `sdp_generate`, for an allocation that succeeds.
unfoldable pub sdp_generate : SdpSession → List ℕ
sdp_generate s =
    version_line s
    ++ (origin_line_text s
        ++ (name_line s
            ++ (timing_line_text s
                ++ (optional_line (codes "a=ice-ufrag:") s.ice_ufrag
                    ++ (optional_line (codes "a=ice-pwd:") s.ice_pwd
                        ++ (fingerprint_line s.fingerprint_type s.fingerprint
                            ++ (optional_line (codes "a=setup:") s.dtls_setup
                                ++ (group_line s.media
                                    ++ (codes "a=ice-options:trickle\r\n"
                                        ++ (media_texts s.media
                                            ++ candidate_lines s.candidates))))))))))
