-- ===== src/SigV4/Chunked/Frames.antt =====
-- The framing of an aws-chunked body, apart from the code that reads it.
use pterodactyl_proxmox_back.Prelude.{◌≡◌, ◌≢◌, some, [], ◌∷◌, ◌++◌, Bytes, length}
use pterodactyl_proxmox_back.Strings.{cut}
use pterodactyl_proxmox_back.Strings.Split.{NoByte}
use pterodactyl_proxmox_back.SigV4.Canonical.{Crypto}
use pterodactyl_proxmox_back.SigV4.Chunked.{
  trim_line_end, chunk_size, extension_signature, ChunkKey, chunk_signature,
}

-- A line and what follows it.
pub record LineOf (rest line r : Bytes) : Type 0 where
  pub raw : Bytes
  pub whole : NoByte 10 raw
  pub trimmed : trim_line_end raw ≡ line
  pub text : rest ≡ raw ++ (10 ∷ r)

-- A chunk's header line: the first line, or the one after a blank one.
pub data HeaderOf (rest line r : Bytes) : Type 0 where
  direct : LineOf rest line r → line ≢ [] → HeaderOf rest line r
  after_blank : (s : Bytes) → LineOf rest [] s → LineOf s line r → HeaderOf rest line r

module _ (c : Crypto) (k : ChunkKey) where
  -- A chunk at the head of `rest`: its header states its size and signature, its bytes follow, then
  -- two bytes that end it; the signature is that of the bytes after the signature before.
  pub record ChunkOf (prev rest piece signature r : Bytes) : Type 0 where
    pub line : Bytes
    pub after_header : Bytes
    pub ending : Bytes
    pub header : HeaderOf rest line after_header
    pub size : chunk_size line ≡ some (length piece)
    pub named : extension_signature (cut b';' line) ≡ signature
    pub present : signature ≢ []
    pub text : after_header ≡ piece ++ (ending ++ r)
    pub ends : length ending ≡ 2
    pub signed : signature ≡ chunk_signature c k prev piece

  -- A body of signed chunks up to and with an empty one, and what they carry.
  pub data Frames : Bytes → Bytes → Bytes → Type 0 where
    last :
        {prev body signature r content : Bytes}
        → ChunkOf prev body [] signature r
        → content ≡ []
        → Frames prev body content
    more :
        {prev body signature r further content : Bytes} (piece : Bytes)
        → piece ≢ []
        → ChunkOf prev body piece signature r
        → Frames signature r further
        → content ≡ piece ++ further
        → Frames prev body content

  -- The same without an end: signed chunks at the head of a body.
  pub data SignedUpTo : Bytes → Bytes → Bytes → Type 0 where
    nothing : {prev body content : Bytes} → content ≡ [] → SignedUpTo prev body content
    chunk :
        {prev body signature r further content : Bytes} (piece : Bytes)
        → ChunkOf prev body piece signature r
        → SignedUpTo signature r further
        → content ≡ piece ++ further
        → SignedUpTo prev body content
