-- ===== src/Tests/LocationTests.antt =====
-- The theorem on locations at a concrete input.
use ghostsnap.Prelude.{◌≡◌, some}
use ghostsnap.Location.{
  RepositoryLocation, SftpLocation, blank, resolve_location, transport_from_location,
  resolve_location-transport_from_location,
}

abbrev server : SftpLocation
server = record { host = "backup.example"; port = 2222; user = "u"; path = "repo" }

resolve_location-transport_from_location_example :
    (resolve_location
        (blank (RepositoryLocation.sftp server))
        (some (transport_from_location (RepositoryLocation.sftp server)))
      ≡ RepositoryLocation.sftp server)
    × (resolve_location
          (RepositoryLocation.sftp server)
          (some (transport_from_location (RepositoryLocation.sftp server)))
        ≡ RepositoryLocation.sftp server)
resolve_location-transport_from_location_example =
    resolve_location-transport_from_location (RepositoryLocation.sftp server)
