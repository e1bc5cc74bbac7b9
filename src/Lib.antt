-- ===== src/Lib.antt =====
-- tinyrtc, a WebRTC library in C for small devices. A peer connection (src/peer_connection.c)
-- exchanges session descriptions (src/signal, src/signaling), finds a path to its peer
-- (src/ice), agrees on keys over it (src/media/dtls.c), and then sends and receives frames:
-- they are cut into packets, given RTP headers, protected, paced by the congestion control,
-- and at the other end checked, ordered in a jitter buffer and put together again. This library
-- models the media path from the track of the sender to the observer of the receiver, the session
-- descriptions and their exchange, the STUN messages, the ICE session, the event loop that brings a
-- connection up, and the frames and texts of signaling.
--
--   Rtp          the RTP header of src/media/rtp.c: tinyrtc_rtp_parse_header,
--                tinyrtc_rtp_build_header and tinyrtc_rtp_get_payload
--   Rtcp         the reports of the same file: tinyrtc_rtcp_*
--   Jitter       its jitter buffer: tinyrtc_jitter_buffer_*. Jitter.Contents is the abstract
--                view, the list of the packets in the order of playout
--   Packetize    tinyrtc_packetize_frame with its H.264 helpers
--   Depacketize  tinyrtc_depacketize_frame
--   Codec        the table of src/media_codec.c
--   Srtp         src/media/srtp.c
--   Stun         src/ice/stun.c
--   Ice          the session of src/ice/ice.c, its candidates and its check pairs;
--                Ice.Arrivals is ice_process_packet, Ice.Checks ice_check_connectivity, and
--                Ice.Gathering ice_start_gathering
--   Peer         src/peer_connection.c: the tracks and the state of a connection, Peer.Send
--                (tinyrtc_track_send_audio_frame, packetize_send_callback), Peer.Receive
--                (pc_process_incoming_rtp; Peer.Pieces for the codecs without
--                reassembly), Peer.Descriptions (tinyrtc_peer_connection_create_offer,
--                tinyrtc_peer_connection_create_answer and
--                tinyrtc_peer_connection_set_remote_description) and Peer.Candidates
--                (tinyrtc_peer_connection_add_ice_candidate)
--   Dtls         the SRTP keys of src/media/dtls.c
--   Library      src/tinyrtc.c: pc_initialize_srtp_after_dtls, and what tinyrtc_process_events
--                does for one connection
--   Signaling    src/signaling/signaling.c: its WebSocket frames (sig_read_ws_frame,
--                sig_send_ws_frame and tinyrtc_signaling_process), its Base64, and the JSON
--                of offers and answers
--   Sdp          src/signal: the session descriptions, Sdp.Parser (sdp_parse), Sdp.Generator
--                (sdp_generate), and Sdp.Text, the functions of the C library they use
--   TrackTypes   the kinds and configurations of tracks, include/tinyrtc/peer_connection.h
--   Congestion   src/cc/congestion_control.c
--   Status       tinyrtc_error_t of include/tinyrtc/tinyrtc.h
--   Prelude      Boolean tests, lists, words and their bytes, and Outcome: the result of
--                code that reads a buffer
--
-- Each definition is named after its C function, without the prefix of the file, and its
-- comment names the function where the two differ. Packets and frames are lists of their
-- bytes. Output parameters are results. Words wrap around where the C types do. A parser
-- returns `done` with its value, `refused` where the C code returns false, 0 or an error, and
-- `fault` where it reads outside the buffer it was given, where an offset overflows an `int`, and
-- where the fuel of the STUN attribute loop has run out with bytes left. A read from the signaling
-- server's stream is an overrun where it writes behind the receive buffer. The jitter buffer and
-- the congestion control are records that each call takes and gives back, and so is the ICE session, whose
-- calls make a step relation. Packetize gives the packets that Depacketize is run on, and
-- Depacketize calls Rtp as the C code does; the jitter buffer calls the parser of Rtp for the
-- sequence number, and the ICE session reads responses with Stun. Peer stands on all of these, and
-- Library on Peer, Dtls and Ice. A track stands in its connection under its address, which is the
-- pointer that a caller holds.
--
-- Loops over bytes take a number of rounds as fuel: that of the bytes that are left, which is
-- enough since every round takes at least one byte. The fuel of the STUN attribute loop is the
-- length field of the message; a quarter of it is enough, as every round moves on by at least four
-- bytes (Stun.Reading). The doubling of
-- the reassembly buffer has the bytes that are needed as fuel: each round adds at least one.
--
-- Parameters stand for code outside the repository and for floating-point arithmetic: AES-128 on
-- one block, HMAC-SHA1, SHA-1, SHA-256 and the handshake (mbedtls), the random mask and the
-- sockets of Signaling, and in Congestion the three expressions on doubles whose rounding can
-- matter. Whether an allocation succeeds is an argument where a call goes on after a failure.
-- Not modelled are null pointers, logging and the freeing of memory; and the parts of the
-- library that are mostly sockets, text or mbedtls: the handshake of DTLS, the connection to the
-- signaling server, the messages that an ICE session sends, and the array of the connections in a
-- context. The interfaces of the machine, the clock, the port of the socket and the fingerprint are
-- given to an offer or an answer as an Environment.
pub mod Prelude
pub mod Status
pub mod Rtp
pub mod Rtcp
pub mod Jitter
pub mod Codec
pub mod Packetize
pub mod Peer
pub mod Depacketize
pub mod Srtp
pub mod TrackTypes
pub mod Dtls
pub mod Library
pub mod Signaling
pub mod Congestion
pub mod Stun
pub mod Ice
pub mod Sdp
