-- ===== src/Response/Chunked.antt =====
-- response.cpp: ChunkedBodies, the queue between the handler that gives a response's chunks and the
-- connection that sends them. A call holds the mutex.
pub mod Decode
pub mod Sender
pub mod Sent
use da4qi.Base.{List, [], ◌∷◌, ◌++◌, Bool, true, false, if◌then◌else◌, Bytes, codes, length}
use da4qi.Response.Hex.{dec_int_to_hex_str}

abbrev pub ChunkedBodies : Type 0
ChunkedBodies = List (Bytes × Bool)

-- The data of a chunk.
abbrev pub chunk_data : Bytes → Bytes
chunk_data body = (dec_int_to_hex_str (length body) ++ codes "\r\n") ++ (body ++ codes "\r\n")

abbrev pub last_data : Bytes
last_data = codes "0\r\n\r\n"

unfoldable pub push_back : Bytes → Bool → ChunkedBodies → ChunkedBodies
push_back body is_last bodies =
    let data' = if is_last then last_data else chunk_data body in
    let pushed = bodies ++ (data', false) ∷ [] in
    if is_last then pushed ++ ([], true) ∷ [] else pushed

-- The data, whether it is the mark of the end, and what is left.
unfoldable pub pop_front : ChunkedBodies → Bytes × Bool × ChunkedBodies
pop_front [] = ([], false, [])
pop_front ((data', is_last) ∷ bodies) = (data', is_last, bodies)

abbrev pub clear : ChunkedBodies → ChunkedBodies
clear bodies = []
